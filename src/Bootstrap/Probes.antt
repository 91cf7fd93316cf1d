-- ===== src/Bootstrap/Probes.antt =====
-- packages/bootstrap/src/service.ts: `checkLiveness` and `checkReadiness`. Callers that ask while a probe is
-- being answered share its report.
pub mod Truth
use first_principles.Base.{
  String, Bool, true, false, Option, none, some, List, filter, if◌then◌else◌, [],
}
use first_principles.Bootstrap.Checks.{
  ServiceState, idle, starting, running, stopping, stopped, failed, CheckKind, liveness, readiness,
  HealthCheck, Outcome, HealthReport, fail, run_checks,
}

unfoldable pub not_ready_reason : ServiceState → Option String
not_ready_reason idle = some "service has not started"
not_ready_reason starting = some "service is starting"
not_ready_reason stopping = some "service is stopping"
not_ready_reason stopped = some "service has stopped"
not_ready_reason failed = some "service failed to start"
not_ready_reason running = none

abbrev pub is_liveness : Option CheckKind → Bool
is_liveness (some liveness) = true
is_liveness _ = false

abbrev pub is_running : ServiceState → Bool
is_running running = true
is_running _ = false

-- What the state alone decides.
abbrev pub closed : ServiceState → HealthReport
closed state = record { status = fail; state = state; reason = not_ready_reason state; checks = [] }

unfoldable pub check_liveness :
    List HealthCheck → (HealthCheck → Outcome) → ServiceState → HealthReport
check_liveness checks outcomes failed = closed failed
check_liveness checks outcomes state =
    run_checks (filter (λ c. is_liveness c.kind) checks) outcomes state

-- `before` is the state when the probe arrives, and `after` that when the checks have ended.
unfoldable pub check_readiness :
    List HealthCheck → (HealthCheck → Outcome) → ServiceState → ServiceState → HealthReport
check_readiness checks outcomes before after =
    let report = run_checks checks outcomes before in
    if is_running before
    then (if is_running after
        then report
        else record report { status = fail; state = after; reason = not_ready_reason after })
    else closed before
