-- ===== src/Bootstrap/Env.antt =====
-- packages/bootstrap/src/env.ts: variables of a spec are read from an environment. A parser is an
-- argument; `none` is where it throws. The values of all variables have one type here.
pub mod Verdict
use first_principles.Base.{
  ℕ, String, Bool, true, false, Option, none, some, List, [], ◌∷◌, ◌++◌, if◌then◌else◌, str_eq,
  includes, lookup,
}

pub record EnvVar {ℓ} (A : Type ℓ) : Type ℓ where
  pub parse : String → Option A
  pub is_optional : Bool
  pub has_default : Bool
  pub default_value : Option A

-- An entry of the environment, which may be set to `undefined`.
abbrev pub EnvSource : Type 0
EnvSource = List (String × Option String)

pub data Problem : Type 0 where
  missing invalid : Problem

pub record EnvIssue : Type 0 where
  pub variable : String
  pub problem : Problem

pub record Evaluation {ℓ} (A : Type ℓ) : Type ℓ where
  pub entries : List (String × Option A)
  pub issues : List EnvIssue
  pub defaulted : List String

pub data Loaded {ℓ} (A : Type ℓ) : Type ℓ where
  loaded : List (String × Option A) → Loaded A
  refused : List EnvIssue → Loaded A

-- `exits` is whether the process has been told to exit before the error is thrown.
pub data Required {ℓ} (A : Type ℓ) : Type ℓ where
  provided : List (String × Option A) → Required A
  exits_and_throws : List EnvIssue → Required A

unfoldable pub read_raw : EnvSource → String → Option String
read_raw source variable = elim (lookup variable source) [ none ↦ none | some raw ↦ raw ]

-- Of a variable, whether it counts as set, and to what.
unfoldable pub set_to : Option String → Option String
set_to none = none
set_to (some raw) = if str_eq raw "" then none else some raw

module _ {ℓ} {A : Type ℓ} where
  unfoldable pub required : (String → Option A) → EnvVar A
  required parse = record {
    parse = parse;
    is_optional = false;
    has_default = false;
    default_value = none;
  }

  unfoldable pub optional : EnvVar A → EnvVar A
  optional definition = record definition { is_optional = true }

  unfoldable pub default : A → EnvVar A → EnvVar A
  default value definition = record definition { has_default = true; default_value = some value }

  abbrev pub add_entry : String → Option A → Evaluation A → Evaluation A
  add_entry variable value e = record e { entries = e.entries ++ (variable, value) ∷ [] }

  abbrev pub add_issue : String → Problem → Evaluation A → Evaluation A
  add_issue variable problem e = record e {
    issues = e.issues ++ record { variable = variable; problem = problem } ∷ [];
  }

  unfoldable pub evaluate_unset : String → EnvVar A → Evaluation A → Evaluation A
  evaluate_unset variable definition e =
      if definition.has_default
      then record e {
        entries = e.entries ++ (variable, definition.default_value) ∷ [];
        defaulted = e.defaulted ++ variable ∷ [];
      }
      else if definition.is_optional
      then add_entry variable none e
      else add_issue variable missing e

  abbrev pub evaluate_set : String → Option A → Evaluation A → Evaluation A
  evaluate_set variable (some value) e = add_entry variable (some value) e
  evaluate_set variable none e = add_issue variable invalid e

  -- A round of the loop, with what the variable is set to.
  unfoldable pub evaluate_raw : Option String → String → EnvVar A → Evaluation A → Evaluation A
  evaluate_raw none variable definition e = evaluate_unset variable definition e
  evaluate_raw (some raw) variable definition e = evaluate_set variable (definition.parse raw) e

  unfoldable pub evaluate_one : EnvSource → String → EnvVar A → Evaluation A → Evaluation A
  evaluate_one source variable definition e =
      evaluate_raw (set_to (read_raw source variable)) variable definition e

  unfoldable pub evaluate_from : EnvSource → List (String × EnvVar A) → Evaluation A → Evaluation A
  evaluate_from source [] e = e
  evaluate_from source ((variable, definition) ∷ spec) e =
      evaluate_from source spec (evaluate_one source variable definition e)

  unfoldable pub evaluate : List (String × EnvVar A) → EnvSource → Evaluation A
  evaluate spec source =
      evaluate_from source spec (record { entries = []; issues = []; defaulted = [] })

  abbrev pub load_evaluated : List (String × Option A) → List EnvIssue → Loaded A
  load_evaluated entries [] = loaded entries
  load_evaluated entries (issue ∷ issues) = refused (issue ∷ issues)

  unfoldable pub load_env : List (String × EnvVar A) → EnvSource → Loaded A
  load_env spec source = let e = evaluate spec source in load_evaluated e.entries e.issues

  abbrev pub require_evaluated : List (String × Option A) → List EnvIssue → Required A
  require_evaluated entries [] = provided entries
  require_evaluated entries (issue ∷ issues) = exits_and_throws (issue ∷ issues)

  unfoldable pub require_env : List (String × EnvVar A) → EnvSource → Required A
  require_env spec source = let e = evaluate spec source in require_evaluated e.entries e.issues

-- `envVar.string` and `envVar.enum`
unfoldable pub env_string : EnvVar String
env_string = required some

unfoldable pub env_enum : List String → EnvVar String
env_enum values = required (λ raw. if includes values raw then some raw else none)
