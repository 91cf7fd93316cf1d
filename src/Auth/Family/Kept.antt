-- ===== src/Auth/Family/Kept.antt =====
-- What is kept of the used digests.
use mathlib.Core.Path.{ap₂, ◌≡⟨◌⟩◌, ◌∎}
use first_principles.Base.{
  ◌≡◌, refl, sym, min, zero, suc, ◌∙◌, ap, inl, inr, ℕ, ◌+◌, ◌-◌, String, List, [], ◌∷◌, ◌++◌,
  length, ltb, length-append, length-drop, drop, drop-append, drop-drop, arith, Bool-cases,
}
use first_principles.Auth.Family.{keep_last}

pub keep_last-eq-drop :
    (n : ℕ) (used : List String) → keep_last n used ≡ drop (length used - n) used
unfolding keep_last
keep_last-eq-drop n used = elim (Bool-cases (ltb n (length used))) [
  | inl over ↦ rw over
  | inr fits ↦ let none_over : length used - n ≡ 0 = ground arith in rw (fits, none_over)
]

pub keep_last-append :
    (n : ℕ) (xs : List String) (y : String)
    → keep_last n (keep_last n xs ++ y ∷ []) ≡ keep_last n (xs ++ y ∷ [])
keep_last-append n xs y =
    let a = length xs - n in
    let b = length (drop a xs ++ y ∷ []) - n in
    let long : length (drop a xs ++ y ∷ []) ≡ length xs - a + 1 =
      length-append (drop a xs) (y ∷ []) ∙ ap (λ k. k + 1) (length-drop a xs) in
    let first : a + b ≡ length (xs ++ y ∷ []) - n =
      omega (arith, length-append xs (y ∷ []), long) in
    let second : b - length (drop a xs) ≡ length (xs ++ y ∷ []) - n - length xs =
      omega (arith, length-append xs (y ∷ []), long, length-drop a xs) in
    keep_last n (keep_last n xs ++ y ∷ [])
    ≡⟨ ap (λ l. keep_last n (l ++ y ∷ [])) (keep_last-eq-drop n xs) ⟩
      keep_last n (drop a xs ++ y ∷ [])
    ≡⟨ keep_last-eq-drop n _ ⟩ drop b (drop a xs ++ y ∷ [])
    ≡⟨ drop-append b (drop a xs) (y ∷ []) ⟩
      drop b (drop a xs) ++ drop (b - length (drop a xs)) (y ∷ [])
    ≡⟨ ap₂ (λ l k. l ++ drop k (y ∷ [])) (drop-drop b a xs ∙ ap (λ k. drop k xs) first) second ⟩
      drop (length (xs ++ y ∷ []) - n) xs ++ drop (length (xs ++ y ∷ []) - n - length xs) (y ∷ [])
    ≡⟨ sym (drop-append (length (xs ++ y ∷ []) - n) xs (y ∷ [])) ⟩
      drop (length (xs ++ y ∷ []) - n) (xs ++ y ∷ [])
    ≡⟨ sym (keep_last-eq-drop n _) ⟩ keep_last n (xs ++ y ∷ []) ∎

-- The end of a list: `n` members, or all if there are fewer.
pub record IsEnd (n : ℕ) (all kept : List String) : Type 0 where
  pub forgotten : List String
  pub split : all ≡ forgotten ++ kept
  pub long : length kept ≡ min n (length all)

drop-splits : (k : ℕ) (xs : List String) → (older : List String) × (xs ≡ older ++ drop k xs)
drop-splits zero xs = ([], refl)
drop-splits (suc k) [] = ([], refl)
drop-splits (suc k) (x ∷ xs) =
    let (older, same) = drop-splits k xs in (x ∷ older, ap (λ l. x ∷ l) same)

pub keep_last-IsEnd : (n : ℕ) (used : List String) → IsEnd n used (keep_last n used)
keep_last-IsEnd n used =
    let k = length used - n in
    let (older, same) = drop-splits k used in
    let kept = keep_last-eq-drop n used in
    record {
      forgotten = older;
      split = same ∙ ap (λ l. older ++ l) (sym kept);
      long = ap length kept ∙ (length-drop k used ∙ omega arith);
    }
