-- ===== src/Bootstrap/Checks/Worst.antt =====
-- What the status of a report says.
use first_principles.Base.{
  none, some, not, Option, ◌≡◌, refl, ap, ◌∙◌, String, Bool, true, false, ◌&&◌, ◌||◌, List, [], ◌∷◌,
  map, any, arith,
}
use first_principles.Bootstrap.Checks.{
  resolves, rejects, timeout, ServiceState, HealthCheck, Outcome, CheckStatus, status_of,
  is_critical, check_passes, check_fails, CheckResult, Status, pass, warn, fail, run_one, downgrade,
  fold, run_checks,
}

abbrev is_failure : CheckStatus → Bool
is_failure check_passes = false
is_failure check_fails = true

-- The status by the two questions: does a critical check fail, and does any?
abbrev pub worst : Bool → Bool → Status
worst true _ = fail
worst false true = warn
worst false false = pass

abbrev severe : Status → Bool
severe fail = true
severe _ = false

abbrev troubled : Status → Bool
troubled pass = false
troubled _ = true

-- The results of the checks that fail, and those of them that are critical.
abbrev is_bad : String × CheckResult → Bool
is_bad pair = is_failure (pair.1).status

abbrev is_grave : String × CheckResult → Bool
is_grave pair = is_failure (pair.1).status && (pair.1).critical

severe-downgrade :
    (check : CheckStatus) (critical : Bool) (status : Status)
    → severe (downgrade check critical status) ≡ severe status || (is_failure check && critical)
severe-downgrade check_passes critical pass = refl
severe-downgrade check_passes critical warn = refl
severe-downgrade check_passes critical fail = refl
severe-downgrade check_fails true pass = refl
severe-downgrade check_fails true warn = refl
severe-downgrade check_fails true fail = refl
severe-downgrade check_fails false pass = refl
severe-downgrade check_fails false warn = refl
severe-downgrade check_fails false fail = refl

troubled-downgrade :
    (check : CheckStatus) (critical : Bool) (status : Status)
    → troubled (downgrade check critical status) ≡ troubled status || is_failure check
troubled-downgrade check_passes critical pass = refl
troubled-downgrade check_passes critical warn = refl
troubled-downgrade check_passes critical fail = refl
troubled-downgrade check_fails true pass = refl
troubled-downgrade check_fails true warn = refl
troubled-downgrade check_fails true fail = refl
troubled-downgrade check_fails false pass = refl
troubled-downgrade check_fails false warn = refl
troubled-downgrade check_fails false fail = refl

fold-worst :
    (status : Status) (pairs : List (String × CheckResult))
    → fold status pairs
      ≡ worst (severe status || any is_grave pairs) (troubled status || any is_bad pairs)
unfolding fold
fold-worst pass [] = refl
fold-worst warn [] = refl
fold-worst fail [] = refl
fold-worst status ((name, result) ∷ pairs) =
    let next = downgrade result.status result.critical status in
    let grave : severe next || any is_grave pairs
        ≡ severe status || any is_grave ((name, result) ∷ pairs) =
      ground (arith, severe-downgrade result.status result.critical status) in
    let bad : troubled next || any is_bad pairs
        ≡ troubled status || any is_bad ((name, result) ∷ pairs) =
      ground (arith, troubled-downgrade result.status result.critical status) in
    fold-worst next pairs
    ∙ (ap (λ b. worst b (troubled next || any is_bad pairs)) grave
        ∙ ap (worst (severe status || any is_grave ((name, result) ∷ pairs))) bad)

-- What the documentation of a check calls a pass, and a critical check.
abbrev passes : Outcome → Bool
passes (resolves true) = true
passes _ = false

abbrev counts : Option Bool → Bool
counts (some false) = false
counts _ = true

module _ (outcomes : HealthCheck → Outcome) where
  abbrev pub fails : HealthCheck → Bool
  fails check = not (passes (outcomes check))

  abbrev pub fails_badly : HealthCheck → Bool
  fails_badly check = fails check && counts check.critical

is_failure-status_of : (o : Outcome) → is_failure (status_of o) ≡ not (passes o)
is_failure-status_of (resolves true) = refl
is_failure-status_of (resolves false) = refl
is_failure-status_of rejects = refl
is_failure-status_of timeout = refl

is_critical-counts : (o : Option Bool) → is_critical o ≡ counts o
is_critical-counts none = refl
is_critical-counts (some true) = refl
is_critical-counts (some false) = refl

any-same :
    (p q : HealthCheck → Bool) (xs : List HealthCheck)
    → ((x : HealthCheck) → p x ≡ q x)
    → any p xs ≡ any q xs
any-same p q [] h = refl
any-same p q (x ∷ xs) h = ground (arith, h x, any-same p q xs h)

any-map {ℓ κ} :
    {A : Type ℓ} {B : Type κ} (p : B → Bool) (f : A → B) (xs : List A)
    → any p (map f xs) ≡ any (λ x. p (f x)) xs
any-map p f [] = refl
any-map p f (x ∷ xs) = ap (λ b. p (f x) || b) (any-map p f xs)

-- The report fails if a critical check fails, warns if only others do, and passes if none does, whatever the
-- order of the checks. A check fails unless it returns true, or nothing, before its timeout; it is critical unless its
-- `critical` is false.
pub run_checks-worst :
    (checks : List HealthCheck) (outcomes : HealthCheck → Outcome) (state : ServiceState)
    → (let report = run_checks checks outcomes state in report.status)
      ≡ worst (any (fails_badly outcomes) checks) (any (fails outcomes) checks)
unfolding run_checks run_one
run_checks-worst checks outcomes state =
    let pair : HealthCheck → String × CheckResult =
      λ check. (check.name, run_one check (outcomes check)) in
    let grave : any is_grave (map pair checks) ≡ any (fails_badly outcomes) checks =
      any-map is_grave pair checks
      ∙ any-same (λ x. is_grave (pair x)) (fails_badly outcomes) checks
          (λ x.
            ap (λ b. b && is_critical x.critical) (is_failure-status_of (outcomes x))
            ∙ ap (λ b. fails outcomes x && b) (is_critical-counts x.critical)) in
    let bad : any is_bad (map pair checks) ≡ any (fails outcomes) checks =
      any-map is_bad pair checks
      ∙ any-same (λ x. is_bad (pair x)) (fails outcomes) checks
          (λ x. is_failure-status_of (outcomes x)) in
    fold-worst pass (map pair checks)
    ∙ (ap (λ b. worst b (any is_bad (map pair checks))) grave
        ∙ ap (worst (any (fails_badly outcomes) checks)) bad)
