-- ===== src/AccessControl/Truth/Laws.antt =====
-- Laws of the three-valued connectives.
use first_principles.Base.{
  ◌≡◌, refl, ◌↔◌, ◌⊎◌, inr, Bool, true, false, List, [], ◌∷◌, map, arith, All, Any,
}
use first_principles.AccessControl.Truth.{
  Ternary, is_true, is_false, unknown, all_from, all, any_from, any, negate, Below, AllBelow,
}

all_from-false :
    (saw : Bool) (xs : List Ternary) → (all_from saw xs ≡ is_false) ↔ Any (λ x. x ≡ is_false) xs
unfolding all_from
all_from-false false [] = ground arith
all_from-false true [] = ground arith
all_from-false saw (is_true ∷ xs) = ground (arith, all_from-false saw xs)
all_from-false saw (is_false ∷ xs) = ground arith
all_from-false saw (unknown ∷ xs) = ground (arith, all_from-false true xs)

all_from-true :
    (saw : Bool) (xs : List Ternary)
    → (all_from saw xs ≡ is_true) ↔ ((saw ≡ false) × All (λ x. x ≡ is_true) xs)
unfolding all_from
all_from-true false [] = ground arith
all_from-true true [] = ground arith
all_from-true saw (is_true ∷ xs) = ground (arith, all_from-true saw xs)
all_from-true saw (is_false ∷ xs) = ground arith
all_from-true saw (unknown ∷ xs) = ground (arith, all_from-true true xs)

negate-all_from :
    (saw : Bool) (xs : List Ternary) → negate (all_from saw xs) ≡ any_from saw (map negate xs)
unfolding all_from any_from negate
negate-all_from saw [] = ground arith
negate-all_from saw (is_true ∷ xs) = negate-all_from saw xs
negate-all_from saw (is_false ∷ xs) = refl
negate-all_from saw (unknown ∷ xs) = negate-all_from true xs

pub negate-negate : (x : Ternary) → negate (negate x) ≡ x
unfolding negate
negate-negate is_true = refl
negate-negate is_false = refl
negate-negate unknown = refl

-- Negating a conjunction is the disjunction of the negations.
pub negate-all : (xs : List Ternary) → negate (all xs) ≡ any (map negate xs)
unfolding all any
negate-all xs = negate-all_from false xs

map-negate : (xs : List Ternary) → map negate (map negate xs) ≡ xs
map-negate [] = refl
map-negate (x ∷ xs) = rw (negate-negate, map-negate xs)

pub any-eq-negate : (xs : List Ternary) → any xs ≡ negate (all (map negate xs))
any-eq-negate xs = rw (negate-all, map-negate)

any_from-true :
    (saw : Bool) (xs : List Ternary) → (any_from saw xs ≡ is_true) ↔ Any (λ x. x ≡ is_true) xs
unfolding any_from
any_from-true false [] = ground arith
any_from-true true [] = ground arith
any_from-true saw (is_true ∷ xs) = ground arith
any_from-true saw (is_false ∷ xs) = ground (arith, any_from-true saw xs)
any_from-true saw (unknown ∷ xs) = ground (arith, any_from-true true xs)

any_from-false :
    (saw : Bool) (xs : List Ternary)
    → (any_from saw xs ≡ is_false) ↔ ((saw ≡ false) × All (λ x. x ≡ is_false) xs)
unfolding any_from
any_from-false false [] = ground arith
any_from-false true [] = ground arith
any_from-false saw (is_true ∷ xs) = ground arith
any_from-false saw (is_false ∷ xs) = ground (arith, any_from-false saw xs)
any_from-false saw (unknown ∷ xs) = ground (arith, any_from-false true xs)

-- A conjunction is false exactly when an operand is, and true exactly when every operand is; a
-- disjunction is true exactly when an operand is, and false exactly when every operand is.
pub kleene_values :
    (xs : List Ternary)
    → ((all xs ≡ is_false) ↔ Any (λ x. x ≡ is_false) xs)
      × ((all xs ≡ is_true) ↔ All (λ x. x ≡ is_true) xs)
      × ((any xs ≡ is_true) ↔ Any (λ x. x ≡ is_true) xs)
      × ((any xs ≡ is_false) ↔ All (λ x. x ≡ is_false) xs)
unfolding all any
kleene_values xs = (
  all_from-false false xs,
  ground (arith, all_from-true false xs),
  any_from-true false xs,
  ground (arith, any_from-false false xs),
)

-- Learning more about the operands never changes a definite answer.
all_from-Below :
    (s t : Bool) (xs ys : List Ternary)
    → AllBelow xs ys
    → ((s ≡ true) ⊎ (s ≡ t))
    → Below (all_from s xs) (all_from t ys)
unfolding all_from
all_from-Below s t [] [] h k = ground arith
all_from-Below s t [] (y ∷ ys) h k = elim h [ ]
all_from-Below s t (x ∷ xs) [] h k = elim h [ ]
all_from-Below s t (is_false ∷ xs) (y ∷ ys) h k = ground arith
all_from-Below s t (is_true ∷ xs) (y ∷ ys) h k = ground (arith, all_from-Below s t xs ys)
all_from-Below s t (unknown ∷ xs) (is_false ∷ ys) h k = ground (arith, all_from-true true xs)
all_from-Below s t (unknown ∷ xs) (is_true ∷ ys) h k = ground (arith, all_from-Below true t xs ys)
all_from-Below s t (unknown ∷ xs) (unknown ∷ ys) h k =
    ground (arith, all_from-Below true true xs ys)

pub negate-Below : (x y : Ternary) → Below x y → Below (negate x) (negate y)
unfolding negate
negate-Below x y h = ground arith

pub all-Below : (xs ys : List Ternary) → AllBelow xs ys → Below (all xs) (all ys)
unfolding all
all-Below xs ys h = all_from-Below false false xs ys h (inr refl)

map-negate-AllBelow :
    (xs ys : List Ternary) → AllBelow xs ys → AllBelow (map negate xs) (map negate ys)
map-negate-AllBelow [] [] h = tt
map-negate-AllBelow [] (y ∷ ys) h = elim h [ ]
map-negate-AllBelow (x ∷ xs) [] h = elim h [ ]
map-negate-AllBelow (x ∷ xs) (y ∷ ys) h = (negate-Below x y h.0, map-negate-AllBelow xs ys h.1)

pub any-Below : (xs ys : List Ternary) → AllBelow xs ys → Below (any xs) (any ys)
any-Below xs ys h =
    rw (any-eq-negate xs, any-eq-negate ys)
      (negate-Below _ _ (all-Below _ _ (map-negate-AllBelow xs ys h)))
