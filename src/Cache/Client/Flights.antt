-- ===== src/Cache/Client/Flights.antt =====
-- Reading and replacing the item at a place of a list.
use first_principles.Base.{
  ◌≡◌, refl, ℕ, zero, suc, Option, none, some, List, [], ◌∷◌, ◌++◌, if◌then◌else◌, ◌==◌, length,
  arith,
}

unfoldable pub get_at {ℓ} : {A : Type ℓ} → List A → ℕ → Option A
get_at [] i = none
get_at (x ∷ xs) zero = some x
get_at (x ∷ xs) (suc i) = get_at xs i

unfoldable pub put_at {ℓ} : {A : Type ℓ} → List A → ℕ → A → List A
put_at [] i y = []
put_at (x ∷ xs) zero y = y ∷ xs
put_at (x ∷ xs) (suc i) y = x ∷ put_at xs i y

module _ {ℓ} {A : Type ℓ} where
  pub get_at-append :
      (xs : List A) (y : A) (j : ℕ)
      → get_at (xs ++ y ∷ []) j ≡ (if j == length xs then some y else get_at xs j)
  unfolding get_at
  get_at-append [] y zero = refl
  get_at-append [] y (suc j) = ground arith
  get_at-append (x ∷ xs) y zero = ground arith
  get_at-append (x ∷ xs) y (suc j) = ground (arith, get_at-append xs y j)

  pub get_at-put_at :
      (xs : List A) (i j : ℕ) (x y : A)
      → get_at xs i ≡ some x
      → get_at (put_at xs i y) j ≡ (if j == i then some y else get_at xs j)
  unfolding get_at put_at
  get_at-put_at [] i j x y h = absurd (ground arith)
  get_at-put_at (z ∷ xs) zero zero x y h = ground arith
  get_at-put_at (z ∷ xs) zero (suc j) x y h = ground arith
  get_at-put_at (z ∷ xs) (suc i) zero x y h = ground arith
  get_at-put_at (z ∷ xs) (suc i) (suc j) x y h = ground (arith, get_at-put_at xs i j x y h)

  pub get_at-none : (xs : List A) → get_at xs (length xs) ≡ none
  unfolding get_at
  get_at-none [] = refl
  get_at-none (x ∷ xs) = get_at-none xs
