-- ===== src/Bootstrap/Env/Verdict.antt =====
-- What becomes of each variable, said for itself.
use mathlib.Core.List.{append_assoc, append-nil}
use mathlib.Core.Path.{subst}
use first_principles.Base.Texts.{size}
use first_principles.Base.{
  Char, arith, str_eq, str_eq_iff, str_eq_refl, lookup, ◌≡◌, refl, sym, ap, ◌∙◌, inl, inr, String,
  Bool, true, false, Option, none, some, List, [], ◌∷◌, ◌++◌, Bool-cases,
}
use first_principles.Bootstrap.Env.{
  EnvVar, EnvSource, Problem, missing, invalid, EnvIssue, Evaluation, Loaded, loaded, refused,
  Required, provided, exits_and_throws, read_raw, set_to, evaluate_unset, evaluate_set,
  evaluate_raw, evaluate_one, evaluate_from, evaluate, load_env, load_evaluated, require_env,
  require_evaluated,
}

-- A variable has a value, which may be none, or a problem.
pub data Verdict {ℓ} (A : Type ℓ) : Type ℓ where
  has : Option A → Verdict A
  lacks : Problem → Verdict A

-- The text of a variable with at least one character: there is none if the environment has no entry, an
-- entry without a value, or an empty text.
abbrev pub text_of : Option (Option String) → Option String
text_of none = none
text_of (some none) = none
text_of (some (some String.[])) = none
text_of (some (some (String.◌∷◌ c s))) = some (String.◌∷◌ c s)

not_empty : (c : Char) (s : String) → str_eq (String.◌∷◌ c s) "" ≡ false
unfolding size
not_empty c s = elim (Bool-cases (str_eq (String.◌∷◌ c s) "")) [
  | inl same ↦
      let long : size (String.◌∷◌ c s) ≡ size "" =
        ap size ((str_eq_iff (String.◌∷◌ c s) "").0 same) in
      absurd (ground (arith, long))
  | inr other ↦ other
]

abbrev flat : Option (Option String) → Option String
flat none = none
flat (some raw) = raw

found : (o : Option (Option String)) → set_to (flat o) ≡ text_of o
unfolding set_to
found none = refl
found (some none) = refl
found (some (some String.[])) = rw (str_eq_refl "")
found (some (some (String.◌∷◌ c s))) = rw (not_empty c s)

text_of-set_to :
    (source : EnvSource) (variable : String)
    → set_to (read_raw source variable) ≡ text_of (lookup variable source)
unfolding read_raw
text_of-set_to source variable = found (lookup variable source)

module _ {ℓ} {A : Type ℓ} where
  abbrev of_unset : Bool → Bool → Option A → Verdict A
  of_unset true is_optional value = has value
  of_unset false true value = has none
  of_unset false false value = lacks missing

  abbrev of_set : Option A → Verdict A
  of_set (some value) = has (some value)
  of_set none = lacks invalid

  abbrev of_text : Option String → EnvVar A → Verdict A
  of_text none definition =
      of_unset definition.has_default definition.is_optional definition.default_value
  of_text (some raw) definition = of_set (definition.parse raw)

  abbrev pub verdict : EnvSource → String → EnvVar A → Verdict A
  verdict source variable definition = of_text (text_of (lookup variable source)) definition

  abbrev value_of : String → Verdict A → List (String × Option A)
  value_of variable (has value) = (variable, value) ∷ []
  value_of variable (lacks problem) = []

  abbrev issue_of : String → Verdict A → List EnvIssue
  issue_of variable (has value) = []
  issue_of variable (lacks problem) = record { variable = variable; problem = problem } ∷ []

  -- The values of a spec, and its issues.
  abbrev pub values : EnvSource → List (String × EnvVar A) → List (String × Option A)
  values source [] = []
  values source ((variable, definition) ∷ spec) =
      value_of variable (verdict source variable definition) ++ values source spec

  abbrev pub issues : EnvSource → List (String × EnvVar A) → List EnvIssue
  issues source [] = []
  issues source ((variable, definition) ∷ spec) =
      issue_of variable (verdict source variable definition) ++ issues source spec

  -- What one round adds.
  Adds : Evaluation A → Evaluation A → String → Verdict A → Type ℓ
  Adds e next variable v =
      (next.entries ≡ e.entries ++ value_of variable v)
      × (next.issues ≡ e.issues ++ issue_of variable v)

  evaluate_unset-Adds :
      (variable : String) (definition : EnvVar A) (e : Evaluation A)
      → Adds e
          (evaluate_unset variable definition e)
          variable
          (of_unset definition.has_default definition.is_optional definition.default_value)
  unfolding evaluate_unset Adds
  evaluate_unset-Adds variable definition e = elim (Bool-cases definition.has_default) [
    | inl there ↦ rw there (refl, sym (append-nil e.issues))
    | inr without ↦ elim (Bool-cases definition.is_optional) [
      | inl may ↦ rw (without, may) (refl, sym (append-nil e.issues))
      | inr must ↦ rw (without, must) (sym (append-nil e.entries), refl)
    ]
  ]

  evaluate_set-Adds :
      (variable : String) (o : Option A) (e : Evaluation A)
      → Adds e (evaluate_set variable o e) variable (of_set o)
  unfolding Adds
  evaluate_set-Adds variable (some value) e = (refl, sym (append-nil e.issues))
  evaluate_set-Adds variable none e = (sym (append-nil e.entries), refl)

  evaluate_raw-Adds :
      (raw : Option String) (variable : String) (definition : EnvVar A) (e : Evaluation A)
      → Adds e (evaluate_raw raw variable definition e) variable (of_text raw definition)
  unfolding evaluate_raw
  evaluate_raw-Adds none variable definition e = evaluate_unset-Adds variable definition e
  evaluate_raw-Adds (some raw) variable definition e =
      evaluate_set-Adds variable (definition.parse raw) e

  evaluate_from-collects :
      (source : EnvSource) (spec : List (String × EnvVar A)) (e : Evaluation A)
      → (let next = evaluate_from source spec e in
          (next.entries ≡ e.entries ++ values source spec)
          × (next.issues ≡ e.issues ++ issues source spec))
  unfolding evaluate_from evaluate_one Adds
  evaluate_from-collects source [] e = (sym (append-nil e.entries), sym (append-nil e.issues))
  evaluate_from-collects source ((variable, definition) ∷ spec) e =
      let v = verdict source variable definition in
      let next = evaluate_one source variable definition e in
      let (some_values, some_issues) =
        subst (λ t. Adds e next variable (of_text t definition)) (text_of-set_to source variable)
          (evaluate_raw-Adds (set_to (read_raw source variable)) variable definition e) in
      let (more_values, more_issues) = evaluate_from-collects source spec next in
      (
        more_values
            ∙ (ap (λ l. l ++ values source spec) some_values
                ∙ append_assoc e.entries (value_of variable v) (values source spec)),
        more_issues
            ∙ (ap (λ l. l ++ issues source spec) some_issues
                ∙ append_assoc e.issues (issue_of variable v) (issues source spec)),
      )

  -- What the issues of a spec decide, for both ways of loading it.
  abbrev pub IsLoaded : List (String × Option A) → List EnvIssue → Loaded A → Required A → Type ℓ
  IsLoaded found [] l r = (l ≡ loaded found) × (r ≡ provided found)
  IsLoaded found (issue ∷ more) l r =
      (l ≡ refused (issue ∷ more)) × (r ≡ exits_and_throws (issue ∷ more))

  evaluated-IsLoaded :
      (found : List (String × Option A)) (wrong : List EnvIssue)
      → IsLoaded found wrong (load_evaluated found wrong) (require_evaluated found wrong)
  evaluated-IsLoaded found [] = (refl, refl)
  evaluated-IsLoaded found (issue ∷ more) = (refl, refl)

  -- Every variable is judged for itself: an unset or empty one has its default value if it has one, no value if it
  -- is optional, and is missing otherwise; another has the value that its parser returns, and is invalid if the
  -- parser throws. If no variable has a problem, loadEnv and requireEnv return the values of all of them, in the
  -- order of the spec; otherwise both fail with all the problems, in that order.
  pub load_env-IsLoaded :
      (spec : List (String × EnvVar A)) (source : EnvSource)
      → IsLoaded
          (values source spec)
          (issues source spec)
          (load_env spec source)
          (require_env spec source)
  unfolding load_env require_env evaluate
  load_env-IsLoaded spec source =
      let (found, wrong) =
        evaluate_from-collects source spec (record { entries = []; issues = []; defaulted = [] }) in
      rw (found, wrong) (evaluated-IsLoaded (values source spec) (issues source spec))
