-- ===== src/Bootstrap/Service/Order.antt =====
-- The order of the stops, said without the sort.
use mathlib.Core.List.Perm
use mathlib.Core.List.{Perm}
use first_principles.Base.Int.{ℤ, pos, negsuc, ltb_ℤ}
use first_principles.Base.{
  ◌≡◌, refl, sym, ap, ◌∙◌, ◌⊎◌, inl, inr, ◌≤◌, true, false, List, [], ◌∷◌, map, All, Bool-cases,
  arith,
}
use first_principles.Bootstrap.Service.Stops.{
  Resource, order_of, Entry, goes_first, entries, insert, sort, resource_of, stop_sequence,
}

abbrev pub stop_order_of : Entry → ℤ
stop_order_of e = let r = e.resource in order_of r.stop_order

-- An entry stops before another: its order is lower, or they have one order and it is registered no earlier.
abbrev pub Precedes : Entry → Entry → Type 0
Precedes e f =
    (ltb_ℤ (stop_order_of e) (stop_order_of f) ≡ true)
    ⊎ ((stop_order_of e ≡ stop_order_of f) × (f.index ≤ e.index))

abbrev pub Sorted : List Entry → Type 0
Sorted [] = Unit
Sorted (e ∷ es) = All (Precedes e) es × Sorted es

ltb_ℤ-antisym : (a b : ℤ) → ltb_ℤ a b ≡ false → ltb_ℤ b a ≡ false → a ≡ b
ltb_ℤ-antisym (pos m) (pos n) h k = ap pos (ground (arith, h, k))
ltb_ℤ-antisym (pos m) (negsuc n) h k = absurd (ground (arith, h, k))
ltb_ℤ-antisym (negsuc m) (pos n) h k = absurd (ground (arith, h, k))
ltb_ℤ-antisym (negsuc m) (negsuc n) h k = ap negsuc (ground (arith, h, k))

ltb_ℤ-trans : (a b c : ℤ) → ltb_ℤ a b ≡ true → ltb_ℤ b c ≡ true → ltb_ℤ a c ≡ true
ltb_ℤ-trans a b c h k = ground (arith, h, k)

goes_first-Precedes : (e f : Entry) → goes_first e f ≡ true → Precedes e f
goes_first-Precedes e f h = elim (Bool-cases (ltb_ℤ (stop_order_of e) (stop_order_of f))) [
  | inl lower ↦ inl lower
  | inr not_lower ↦ elim (Bool-cases (ltb_ℤ (stop_order_of f) (stop_order_of e))) [
    | inl higher ↦ absurd (ground (arith, h, not_lower, higher))
    | inr not_higher ↦ inr (
      ltb_ℤ-antisym (stop_order_of e) (stop_order_of f) not_lower not_higher,
      ground (arith, h, not_lower, not_higher),
    )
  ]
]

goes_last-Precedes : (e f : Entry) → goes_first e f ≡ false → Precedes f e
goes_last-Precedes e f h = elim (Bool-cases (ltb_ℤ (stop_order_of f) (stop_order_of e))) [
  | inl lower ↦ inl lower
  | inr not_lower ↦ elim (Bool-cases (ltb_ℤ (stop_order_of e) (stop_order_of f))) [
    | inl higher ↦ absurd (ground (arith, h, not_lower, higher))
    | inr not_higher ↦ inr (
      ltb_ℤ-antisym (stop_order_of f) (stop_order_of e) not_lower not_higher,
      ground (arith, h, not_lower, not_higher),
    )
  ]
]

Precedes-trans : (e f g : Entry) → Precedes e f → Precedes f g → Precedes e g
Precedes-trans e f g (inl h) (inl k) =
    inl (ltb_ℤ-trans (stop_order_of e) (stop_order_of f) (stop_order_of g) h k)
Precedes-trans e f g (inl h) (inr k) = inl (ap (λ o. ltb_ℤ (stop_order_of e) o) (sym k.0) ∙ h)
Precedes-trans e f g (inr h) (inl k) = inl (ap (λ o. ltb_ℤ o (stop_order_of g)) h.0 ∙ k)
Precedes-trans e f g (inr h) (inr k) = inr (h.0 ∙ k.0, omega (arith, h.1, k.1))

All-precede :
    (e f : Entry) (es : List Entry) → Precedes e f → All (Precedes f) es → All (Precedes e) es
All-precede e f [] h all = tt
All-precede e f (g ∷ es) h all = (Precedes-trans e f g h all.0, All-precede e f es h all.1)

All-insert :
    (f e : Entry) (es : List Entry)
    → Precedes f e
    → All (Precedes f) es
    → All (Precedes f) (insert e es)
unfolding insert
All-insert f e [] h all = (h, tt)
All-insert f e (g ∷ es) h all = elim (Bool-cases (goes_first e g)) [
  | inl first ↦ rw first (h, all)
  | inr later ↦ rw later (all.0, All-insert f e es h all.1)
]

insert-Sorted : (e : Entry) (es : List Entry) → Sorted es → Sorted (insert e es)
unfolding insert
insert-Sorted e [] h = (tt, tt)
insert-Sorted e (f ∷ es) h = elim (Bool-cases (goes_first e f)) [
  | inl first ↦
      let before = goes_first-Precedes e f first in
      rw first ((before, All-precede e f es before h.0), h)
  | inr later ↦
      rw later (All-insert f e es (goes_last-Precedes e f later) h.0, insert-Sorted e es h.1)
]

sort-Sorted : (es : List Entry) → Sorted (sort es)
unfolding sort
sort-Sorted [] = tt
sort-Sorted (e ∷ es) = insert-Sorted e (sort es) (sort-Sorted es)

insert-Perm : (e : Entry) (es : List Entry) → Perm (insert e es) (e ∷ es)
unfolding insert
insert-Perm e [] = Perm.refl (e ∷ [])
insert-Perm e (f ∷ es) = elim (Bool-cases (goes_first e f)) [
  | inl first ↦ rw first (Perm.refl (e ∷ f ∷ es))
  | inr later ↦ rw later (Perm.trans (Perm.cons f (insert-Perm e es)) (Perm.swap e f es))
]

sort-Perm : (es : List Entry) → Perm (sort es) es
unfolding sort
sort-Perm [] = Perm.nil
sort-Perm (e ∷ es) = Perm.trans (insert-Perm e (sort es)) (Perm.cons e (sort-Perm es))

-- The stop sequence of a list of resources has each of them once, lower stop orders first, and those of one order in the
-- reverse order of their registration; a resource without an order has order 0.
pub stop_sequence-sorts :
    (list : List Resource)
    → (es : List Entry) × (stop_sequence list ≡ map resource_of es)
      × Perm es (entries 0 list)
      × Sorted es
unfolding stop_sequence
stop_sequence-sorts list =
    (sort (entries 0 list), refl, sort-Perm (entries 0 list), sort-Sorted (entries 0 list))
