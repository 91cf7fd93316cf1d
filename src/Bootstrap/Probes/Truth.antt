-- ===== src/Bootstrap/Probes/Truth.antt =====
-- When a probe fails.
use first_principles.Base.{
  ◌≡◌, refl, ap, ◌∙◌, Bool, true, false, not, ◌&&◌, ◌||◌, List, filter, any, Bool-cases, inl, inr,
}
use first_principles.Bootstrap.Checks.{
  ServiceState, idle, starting, running, stopping, stopped, failed, HealthCheck, Outcome, Status,
  fail, run_checks,
}
use first_principles.Bootstrap.Checks.Worst.{worst, fails, fails_badly, run_checks-worst}
use first_principles.Bootstrap.Probes.{is_liveness, is_running, check_liveness, check_readiness}

abbrev pub is_fail : Status → Bool
is_fail fail = true
is_fail _ = false

is_fail-worst : (critical some_fails : Bool) → is_fail (worst critical some_fails) ≡ critical
is_fail-worst true some_fails = refl
is_fail-worst false true = refl
is_fail-worst false false = refl

is_fail-run_checks :
    (checks : List HealthCheck) (outcomes : HealthCheck → Outcome) (state : ServiceState)
    → (let report = run_checks checks outcomes state in is_fail report.status)
      ≡ any (fails_badly outcomes) checks
is_fail-run_checks checks outcomes state =
    ap is_fail (run_checks-worst checks outcomes state)
    ∙ is_fail-worst (any (fails_badly outcomes) checks) (any (fails outcomes) checks)

check_readiness-fails :
    (checks : List HealthCheck) (outcomes : HealthCheck → Outcome) (before after : ServiceState)
    → (let report = check_readiness checks outcomes before after in is_fail report.status)
      ≡ not (is_running before && is_running after) || any (fails_badly outcomes) checks
unfolding check_readiness
check_readiness-fails checks outcomes before after = elim (Bool-cases (is_running before)) [
  | inl up ↦ elim (Bool-cases (is_running after)) [
    | inl still ↦ rw (up, still) (is_fail-run_checks checks outcomes before)
    | inr gone ↦ rw (up, gone)
  ]
  | inr down ↦ rw down
]

abbrev pub is_failed : ServiceState → Bool
is_failed failed = true
is_failed _ = false

check_liveness-fails :
    (checks : List HealthCheck) (outcomes : HealthCheck → Outcome) (state : ServiceState)
    → (let report = check_liveness checks outcomes state in is_fail report.status)
      ≡ is_failed state || any (fails_badly outcomes) (filter (λ c. is_liveness c.kind) checks)
unfolding check_liveness
check_liveness-fails checks outcomes failed = refl
check_liveness-fails checks outcomes idle =
    is_fail-run_checks (filter (λ c. is_liveness c.kind) checks) outcomes idle
check_liveness-fails checks outcomes starting =
    is_fail-run_checks (filter (λ c. is_liveness c.kind) checks) outcomes starting
check_liveness-fails checks outcomes running =
    is_fail-run_checks (filter (λ c. is_liveness c.kind) checks) outcomes running
check_liveness-fails checks outcomes stopping =
    is_fail-run_checks (filter (λ c. is_liveness c.kind) checks) outcomes stopping
check_liveness-fails checks outcomes stopped =
    is_fail-run_checks (filter (λ c. is_liveness c.kind) checks) outcomes stopped

-- A readiness probe fails exactly if the service is not running when it arrives, or no longer when the checks have
-- ended, or if a critical check fails. A liveness probe fails exactly if the service had failed to start when
-- the probe arrived, or if a critical check of the liveness kind fails: a start that fails while the checks run is not
-- seen. Both are about a probe that finds no other of its kind under way, whose report it would share.
pub probes_fail :
    (checks : List HealthCheck) (outcomes : HealthCheck → Outcome) (before after : ServiceState)
    → ((let report = check_readiness checks outcomes before after in is_fail report.status)
        ≡ not (is_running before && is_running after) || any (fails_badly outcomes) checks)
      × ((let report = check_liveness checks outcomes before in is_fail report.status)
          ≡ is_failed before
            || any (fails_badly outcomes) (filter (λ c. is_liveness c.kind) checks))
probes_fail checks outcomes before after = (
  check_readiness-fails checks outcomes before after,
  check_liveness-fails checks outcomes before,
)
