-- ===== src/AccessControl/Validate/Checks.antt =====
-- What a check of packages/access-control/src/internal/validate.ts returns and adds to its
-- IssueCollector. A path such as `rules[2].when.all[0]` is the list of its steps, and the text of a
-- message is left out: a complaint stands for it.
use first_principles.Base.{
  ◌≡◌, refl, ap, ◌∙◌, ℕ, String, Bool, true, false, List, [], ◌∷◌, ◌++◌, arith, if◌then◌else◌,
}
use first_principles.AccessControl.Values.{Completion, normal, throw}

pub data Place : Type 0 where
  key : String → Place
  index : ℕ → Place

pub data Complaint : Type 0 where
  not_an_array not_an_object not_a_string not_a_name no_names wildcard_name not_a_path unknown_root
        no_attribute empty_segment forbidden_name too_deep several_combinators extra_keys
        no_operands unexpected_operand unknown_operator operand_count not_members not_a_primitive
        not_finite no_effect no_selected undeclared empty_id duplicate_id :
      Complaint

pub record PolicyIssue : Type 0 where
  pub path : List Place
  pub complaint : Complaint

-- A check ends with a result and the issues that it added, or a getter of its input threw.
pub data Check {ℓ} (A : Type ℓ) : Type ℓ where
  completed : A → List PolicyIssue → Check A
  threw : Check A

module _ {ℓ} {A : Type ℓ} where
  abbrev pub done : A → Check A
  done a = completed a []

  -- `issues.add(path, …)`, and what is returned then.
  abbrev pub complain : List Place → Complaint → A → Check A
  complain path complaint a = completed a (record { path = path; complaint = complaint } ∷ [])

  abbrev pub reading : Completion A → Check A
  reading (normal a) = done a
  reading throw = threw

  abbrev pub adding : List PolicyIssue → Check A → Check A
  adding issues (completed a more) = completed a (issues ++ more)
  adding issues threw = threw

infixl 5 ◌>>=◌
abbrev pub ◌>>=◌ {ℓ κ} : {A : Type ℓ} {B : Type κ} → Check A → (A → Check B) → Check B
completed a issues >>= f = adding issues (f a)
threw >>= f = threw

nil-of-append-nil : (xs ys : List PolicyIssue) → xs ++ ys ≡ [] → (xs ≡ []) × (ys ≡ [])
nil-of-append-nil [] ys h = (refl, h)
nil-of-append-nil (x ∷ xs) ys h = absurd (ground arith)

module _ {ℓ} {A : Type ℓ} where
  adding-done :
      (issues : List PolicyIssue) (c : Check A) (a : A)
      → adding issues c ≡ done a
      → (issues ≡ []) × (c ≡ done a)
  adding-done issues (completed b more) a h =
      let (e, e') = nil-of-append-nil issues more (ground arith) in (e, ground arith)
  adding-done issues threw a h = absurd (ground arith)

  pub adding-nil : (c : Check A) → adding [] c ≡ c
  adding-nil (completed a issues) = refl
  adding-nil threw = refl

-- A sequence that ends without an issue consists of two parts that do.
pub bind-done {ℓ κ} :
    {A : Type ℓ} {B : Type κ} (c : Check A) (f : A → Check B) (b : B)
    → (c >>= f) ≡ done b
    → (a : A) × (c ≡ done a) × (f a ≡ done b)
bind-done (completed a issues) f b h =
    let (e, e') = adding-done issues (f a) b h in (a, ground (arith, e), e')
bind-done threw f b h = absurd (ground arith)

pub bind-of-done {ℓ κ} :
    {A : Type ℓ} {B : Type κ} (c : Check A) (a : A) (f : A → Check B) → c ≡ done a → (c >>= f) ≡ f a
bind-of-done c a f h = ap (λ d. d >>= f) h ∙ adding-nil (f a)

-- What comes after an early return.
pub unless-done {ℓ} :
    {A : Type ℓ} (test : Bool) (path : List Place) (complaint : Complaint) (a b : A)
    (rest : Check A)
    → (if test then complain path complaint a else rest) ≡ done b
    → (test ≡ false) × (rest ≡ done b)
unless-done true path complaint a b rest h = absurd (ground arith)
unless-done false path complaint a b rest h = (refl, h)
