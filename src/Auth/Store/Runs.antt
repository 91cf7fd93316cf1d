-- ===== src/Auth/Store/Runs.antt =====
-- What a run of operations, a read and a lost write do.
use first_principles.Base.{
  ◌≡◌, refl, sym, ap, ◌∙◌, ◌⊎◌, inl, inr, ℕ, String, Bool, true, false, Option, none, some, List,
  [], ◌∷◌, ◌++◌, lookup, arith, Option-cases,
}
use first_principles.Auth.Store.{
  Entry, Families, read, compare_and_set, Operation, reads, sets, perform, perform_all,
}
use first_principles.Auth.Family.{TokenFamily}

pub Won-cases {ℓ} :
    {A : Type ℓ} (p : Bool × A) → ((a : A) × (p ≡ (true, a))) ⊎ ((a : A) × (p ≡ (false, a)))
Won-cases (true, a) = inl (a, refl)
Won-cases (false, a) = inr (a, refl)

pub Read-cases {ℓ} :
    {A : Type ℓ} (r : Option Entry × A)
    → ((a : A) × (r ≡ (none, a))) ⊎ ((e : Entry) × (a : A) × (r ≡ (some e, a)))
Read-cases (none, a) = inl (a, refl)
Read-cases (some e, a) = inr (e, a, refl)

pub perform_all-append :
    (xs ys : List Operation) (m : Families)
    → perform_all (xs ++ ys) m ≡ perform_all ys (perform_all xs m)
unfolding perform_all
perform_all-append [] ys m = refl
perform_all-append (op ∷ xs) ys m = perform_all-append xs ys (perform op m)

pub perform_all-read :
    (t : ℕ) (id : String) (before between : List Operation) (r : Option Entry) (m n : Families)
    → read t id (perform_all before m) ≡ (r, n)
    → perform_all (before ++ reads t id ∷ between) m ≡ perform_all between n
unfolding perform_all perform
perform_all-read t id before between r m n e =
    perform_all-append before (reads t id ∷ between) m ∙ ap (λ p. perform_all between p.1) e

pub perform_all-written :
    (g : TokenFamily) (revision t : ℕ) (id : String) (before between : List Operation)
    (r : Option Entry) (b : Bool) (m n m' : Families)
    → read t id (perform_all before m) ≡ (r, n)
    → compare_and_set g revision (perform_all between n) ≡ (b, m')
    → m' ≡ perform_all (before ++ reads t id ∷ (between ++ sets g revision ∷ [])) m
unfolding perform_all perform
perform_all-written g revision t id before between r b m n m' e w = sym (
    perform_all-read t id before (between ++ sets g revision ∷ []) r m n e
    ∙ (perform_all-append between (sets g revision ∷ []) n ∙ ap (λ p. p.1) w))

pub compare_and_set-lost :
    (g : TokenFamily) (expected : ℕ) (m m' : Families)
    → compare_and_set g expected m ≡ (false, m')
    → m' ≡ m
unfolding compare_and_set
compare_and_set-lost g expected m m' h = elim (Option-cases (lookup g.id m)) [
  | inl gone ↦ ground arith
  | inr (old, found) ↦ ground arith
]
