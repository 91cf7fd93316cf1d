-- ===== src/Auth/Family/Window.antt =====
-- The used digests are a window of everything that was rotated away, so a token of the last
-- `max_chain_length` rotations that is presented again ends its family.
use mathlib.Core.Path.{subst}
use mathlib.Core.List.{append_assoc, append-nil}
use first_principles.Base.{
  ◌≡◌, refl, sym, ◌∙◌, ap, ◌⊎◌, inl, inr, ℕ, ◌-◌, ◌≤◌, String, Bool, true, false, ◌||◌, Option,
  none, some, List, [], ◌∷◌, ◌++◌, map, length, length-append, drop, drop-append, any, any-append,
  arith, str_eq, includes, length-map, str_eq_iff, str_eq_refl,
}
use first_principles.Auth.Token.{MintedToken, hashes_match}
use first_principles.Auth.Family.Kept.{keep_last-eq-drop, keep_last-append, IsEnd, keep_last-IsEnd}
use first_principles.Auth.Family.{
  FamilyToken, TokenFamily, RevocationReason, RefreshFailureReason, RefreshDecision, rotated, reuse,
  rejected, is_revoked, was_used, revoke, keep_last, rotate_current, decide_rotation,
}

-- One presentation of a token, with what is minted for it and when.
pub record Presentation : Type 0 where
  pub presented : String
  pub minted : MintedToken
  pub now : ℕ

abbrev as_rotated : RefreshDecision → Option TokenFamily
as_rotated (rotated g) = some g
as_rotated (reuse g) = none
as_rotated (rejected why) = none

Decision-cases :
    (d : RefreshDecision) → ((g : TokenFamily) × (d ≡ rotated g)) ⊎ (as_rotated d ≡ none)
Decision-cases (rotated g) = inl (g, refl)
Decision-cases (reuse g) = inr refl
Decision-cases (rejected why) = inr refl

any-hashes_match :
    (used : List String) (h : String) → any (λ x. hashes_match x h) used ≡ includes used h
unfolding hashes_match
any-hashes_match [] h = refl
any-hashes_match (x ∷ used) h = ap (λ b. str_eq x h || b) (any-hashes_match used h)

or-true : (b : Bool) → b || true ≡ true
or-true true = refl
or-true false = refl

pub revoke-ends :
    (f : TokenFamily) (now : ℕ) (why : RevocationReason) → is_revoked (revoke f now why) ≡ true
unfolding revoke
revoke-ends f now why = ground arith

module _ (ttl_ms max_chain_length : ℕ) where
  abbrev pub decide : Presentation → TokenFamily → RefreshDecision
  decide p f = decide_rotation p.presented p.minted p.now ttl_ms max_chain_length f

  -- The family after presentations that were all rotated.
  unfoldable pub rotations : TokenFamily → List Presentation → Option TokenFamily
  rotations f [] = some f
  rotations f (p ∷ ps) = elim (decide p f) [
    | rotated g ↦ rotations g ps
    | reuse g ↦ none
    | rejected why ↦ none
  ]

  rotate_current-eq-rotated :
      (p : Presentation) (f g : TokenFamily) (current : Option FamilyToken)
      → rotate_current p.presented p.minted p.now ttl_ms max_chain_length f current ≡ rotated g
      → (g.used_hashes ≡ keep_last max_chain_length (f.used_hashes ++ p.presented ∷ []))
        × (is_revoked g ≡ is_revoked f)
  unfolding rotate_current hashes_match
  rotate_current-eq-rotated p f g none e = absurd (ground arith)
  rotate_current-eq-rotated p f g (some c) e = ground (arith, str_eq_iff c.hash p.presented)

  pub decide-eq-rotated :
      (p : Presentation) (f g : TokenFamily)
      → decide p f ≡ rotated g
      → (g.used_hashes ≡ keep_last max_chain_length (f.used_hashes ++ p.presented ∷ []))
        × (is_revoked g ≡ false)
  unfolding decide_rotation
  decide-eq-rotated p f g e = ground (arith, rotate_current-eq-rotated p f g f.current)

  -- The digests that presentations retired.
  abbrev pub retired : List Presentation → List String
  retired = map (λ p. p.presented)

  rotations-history :
      (f g : TokenFamily) (ps : List Presentation) (history : List String)
      → f.used_hashes ≡ keep_last max_chain_length history
      → is_revoked f ≡ false
      → rotations f ps ≡ some g
      → (g.used_hashes ≡ keep_last max_chain_length (history ++ retired ps))
        × (is_revoked g ≡ false)
  unfolding rotations
  rotations-history f g [] history h live e =
      let same : f ≡ g = ground arith in
      (
        ap (λ (k : TokenFamily). k.used_hashes) (sym same)
            ∙ (h ∙ ap (keep_last max_chain_length) (sym (append-nil history))),
        ap is_revoked (sym same) ∙ live,
      )
  rotations-history f g (p ∷ ps) history h live e = elim (Decision-cases (decide p f)) [
    | inl (f', rotates) ↦
        let (used, live') = decide-eq-rotated p f f' rotates in
        let used' : f'.used_hashes ≡ keep_last max_chain_length (history ++ p.presented ∷ []) =
          used
          ∙ (ap (λ l. keep_last max_chain_length (l ++ p.presented ∷ [])) h
              ∙ keep_last-append max_chain_length history p.presented) in
        let (all_used, still) =
          rotations-history f' g ps (history ++ p.presented ∷ []) used' live' (ground arith) in
        (
          all_used
              ∙ ap (keep_last max_chain_length)
                  (append_assoc history (p.presented ∷ []) (retired ps)),
          still,
        )
    | inr stops ↦ absurd (ground arith)
  ]

  rotations-used :
      (f g : TokenFamily) (ps : List Presentation)
      → length f.used_hashes ≤ max_chain_length
      → is_revoked f ≡ false
      → rotations f ps ≡ some g
      → (g.used_hashes ≡ keep_last max_chain_length (f.used_hashes ++ retired ps))
        × (is_revoked g ≡ false)
  unfolding keep_last
  rotations-used f g ps h live e =
      let fits : keep_last max_chain_length f.used_hashes ≡ f.used_hashes = ground arith in
      rotations-history f g ps f.used_hashes (sym fits) live e

  -- After any number of rotations of a live family, with at most the configured number of used digests
  -- to begin with, its used digests are the end of the list of all that were ever used, in the order of their
  -- use: all of them, or as many as are configured to be kept; and it is still live.
  pub rotations-window :
      (f g : TokenFamily) (ps : List Presentation)
      → length f.used_hashes ≤ max_chain_length
      → is_revoked f ≡ false
      → rotations f ps ≡ some g
      → IsEnd max_chain_length (f.used_hashes ++ retired ps) g.used_hashes × (is_revoked g ≡ false)
  rotations-window f g ps h live e =
      let (used, still) = rotations-used f g ps h live e in
      (
        subst (IsEnd max_chain_length (f.used_hashes ++ retired ps)) (sym used)
            (keep_last-IsEnd max_chain_length (f.used_hashes ++ retired ps)),
        still,
      )

  any-keep_last :
      (q : String → Bool) (xs ys : List String)
      → length ys ≤ max_chain_length
      → any q ys ≡ true
      → any q (keep_last max_chain_length (xs ++ ys)) ≡ true
  any-keep_last q xs ys h k =
      let n = length (xs ++ ys) - max_chain_length in
      let all_kept : n - length xs ≡ 0 = omega (arith, length-append xs ys) in
      let kept : keep_last max_chain_length (xs ++ ys) ≡ drop n xs ++ ys =
        keep_last-eq-drop max_chain_length (xs ++ ys)
        ∙ (drop-append n xs ys ∙ ap (λ m. drop n xs ++ drop m ys) all_kept) in
      rw (kept, any-append q (drop n xs) ys, k) (or-true _)

  decide-revoked :
      (p : Presentation) (f : TokenFamily)
      → is_revoked f ≡ true
      → decide p f ≡ rejected RefreshFailureReason.revoked
  unfolding decide_rotation
  decide-revoked p f h = ground arith

  -- Presenting again a token that was rotated away, by one of at most `max_chain_length` rotations of a
  -- live family with at most that many used digests, is answered as reuse at any time, whatever was minted; and the family that is then
  -- written is revoked, so that every later presentation is rejected as revoked.
  pub reuse_is_detected :
      (f g : TokenFamily) (ps : List Presentation) (again later : Presentation)
      → length f.used_hashes ≤ max_chain_length
      → is_revoked f ≡ false
      → rotations f ps ≡ some g
      → length ps ≤ max_chain_length
      → includes (retired ps) again.presented ≡ true
      → (g' : TokenFamily) × (decide again g ≡ reuse g')
        × (is_revoked g' ≡ true)
        × (decide later g' ≡ rejected RefreshFailureReason.revoked)
  unfolding decide_rotation was_used
  reuse_is_detected f g ps again later h live e few was =
      let (window, still) = rotations-used f g ps h live e in
      let found : was_used g again.presented ≡ true =
        ap (any (λ x. hashes_match x again.presented)) window
        ∙ any-keep_last _ f.used_hashes (retired ps)
            (omega (arith, length-map ps (λ p. p.presented)))
            (any-hashes_match (retired ps) again.presented ∙ was) in
      let ended = revoke-ends g again.now RevocationReason.reuse_detected in
      (
        revoke g again.now RevocationReason.reuse_detected,
        ground arith,
        ended,
        decide-revoked later (revoke g again.now RevocationReason.reuse_detected) ended,
      )

  -- A rotated token is among the used ones at once.
  pub was_used_of_rotated :
      (p : Presentation) (f g : TokenFamily)
      → 1 ≤ max_chain_length
      → decide p f ≡ rotated g
      → was_used g p.presented ≡ true
  unfolding was_used
  was_used_of_rotated p f g some_kept e =
      ap (any (λ x. hashes_match x p.presented)) (decide-eq-rotated p f g e).0
      ∙ any-keep_last _ f.used_hashes (p.presented ∷ []) some_kept (
          any-hashes_match (p.presented ∷ []) p.presented ∙ ground (arith, str_eq_refl p.presented))
