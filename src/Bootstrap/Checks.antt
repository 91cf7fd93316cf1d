-- ===== src/Bootstrap/Checks.antt =====
-- packages/bootstrap/src/internal/checks.ts and the reports of packages/bootstrap/src/types.ts.
pub mod Worst
use first_principles.Base.{
  String, Bool, true, false, Option, none, some, List, [], ◌∷◌, ◌++◌, map, if◌then◌else◌,
}

pub data ServiceState : Type 0 where
  idle starting running stopping stopped failed : ServiceState

pub data CheckKind : Type 0 where
  liveness readiness : CheckKind

pub record HealthCheck : Type 0 where
  pub name : String
  pub kind : Option CheckKind
  pub critical : Option Bool

-- What wins the race of a check and its timeout.
pub data Outcome : Type 0 where
  resolves : Bool → Outcome
  rejects timeout : Outcome

pub data CheckStatus : Type 0 where
  check_passes check_fails : CheckStatus

pub record CheckResult : Type 0 where
  pub status : CheckStatus
  pub critical : Bool

pub data Status : Type 0 where
  pass warn fail : Status

pub record HealthReport : Type 0 where
  pub status : Status
  pub state : ServiceState
  pub reason : Option String
  pub checks : List (String × CheckResult)

-- `check.critical !== false`
abbrev pub is_critical : Option Bool → Bool
is_critical none = true
is_critical (some b) = b

-- A check that returns nothing passes, as one that returns true.
abbrev pub status_of : Outcome → CheckStatus
status_of (resolves true) = check_passes
status_of (resolves false) = check_fails
status_of rejects = check_fails
status_of timeout = check_fails

unfoldable pub run_one : HealthCheck → Outcome → CheckResult
run_one check outcome = record { status = status_of outcome; critical = is_critical check.critical }

-- One round of the loop over the results.
abbrev pub downgrade : CheckStatus → Bool → Status → Status
downgrade check_passes critical status = status
downgrade check_fails true status = fail
downgrade check_fails false pass = warn
downgrade check_fails false status = status

unfoldable pub fold : Status → List (String × CheckResult) → Status
fold status [] = status
fold status ((_, result) ∷ pairs) = fold (downgrade result.status result.critical status) pairs

-- The checks run at the same time, and `outcomes` says how each ends.
unfoldable pub run_checks : List HealthCheck → (HealthCheck → Outcome) → ServiceState → HealthReport
run_checks checks outcomes state =
    let pairs = map (λ check. (check.name, run_one check (outcomes check))) checks in
    record { status = fold pass pairs; state = state; reason = none; checks = pairs }
