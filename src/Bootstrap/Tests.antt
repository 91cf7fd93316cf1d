-- ===== src/Bootstrap/Tests.antt =====
-- Runs of a small service, and the theorems at these inputs.
use mathlib.Core.List.{Perm}
use first_principles.Base.Int.{negsuc}
use first_principles.Base.{
  String, ◌≡◌, refl, Bool, true, false, not, ◌&&◌, ◌||◌, ◌⊎◌, none, some, List, [], ◌∷◌, ◌++◌, map,
  any, filter, str_eq, arith,
}
use first_principles.Bootstrap.Checks.{
  running, stopping, HealthCheck, liveness, Outcome, rejects, resolves, fold, run_one, run_checks,
}
use first_principles.Bootstrap.Checks.Worst.{worst, fails, fails_badly, run_checks-worst}
use first_principles.Bootstrap.Service.Stops
use first_principles.Bootstrap.Service.Stops.{
  Resource, Entry, insert, sort, stop_sequence, stop_next, after_turn, StopTurn, entries,
  resource_of,
}
use first_principles.Bootstrap.Service.{
  ServiceOptions, by_signal, caller, nothing_runs, finished, Service, Request, ShutdownResult,
  start_call, stop_call, Event, adds_resource, starts, start_ends, stop_ends, asks, drained,
  settles, new_service, add_resource, add_check, start_next, ask_within, start, undo, clear,
  shut_down, shutdown_by, on_start, on_stop, step, steps, exit_code,
}
use first_principles.Bootstrap.Service.Calls.{started, starts_of}
use first_principles.Bootstrap.Service.Lost.{all_well, shutdown-lost}
use first_principles.Bootstrap.Service.Ends.{IsOver, stop_events, shutdown-ends}
use first_principles.Bootstrap.Service.Sequence.{InOrder, RanThrough, steps-Ordered, shutdown-stops}
use first_principles.Bootstrap.Service.Order.{Sorted, stop_sequence-sorts}
use first_principles.Bootstrap.Probes.{is_liveness, is_running, check_liveness, check_readiness}
use first_principles.Bootstrap.Probes.Truth.{is_fail, probes_fail, is_failed}
use first_principles.Bootstrap.Env.{
  EnvVar, EnvSource, missing, invalid, refused, read_raw, set_to, required, optional, default,
  evaluate_unset, evaluate_raw, evaluate_one, evaluate_from, evaluate, load_env, require_env,
  env_string, env_enum,
}
use first_principles.Bootstrap.Env.Verdict.{IsLoaded, values, issues, load_env-IsLoaded}

environment : Unit {0}
unfolding read_raw set_to required optional default evaluate_unset evaluate_raw evaluate_one
    evaluate_from evaluate load_env require_env env_string env_enum str_eq
environment = tt

program : Unit {0}
unfolding fold run_one run_checks insert sort stop_sequence stop_next after_turn add_resource
    add_check start_next ask_within start undo clear shut_down shutdown_by on_start on_stop step
    steps exit_code check_liveness check_readiness str_eq
program = tt

-- A database, a cache that stops first, and a server.
abbrev db : Resource
db = record { name = "db"; stop_order = none }

abbrev cache : Resource
cache = record { name = "cache"; stop_order = some (negsuc 0) }

abbrev server : Resource
server = record { name = "server"; stop_order = none }

abbrev registration : List Event
registration = adds_resource db ∷ adds_resource cache ∷ adds_resource db ∷ adds_resource server ∷ []

abbrev options : ServiceOptions
options = record { shutdown_timeout_ms = 25000; drain_delay_ms = 5 }

abbrev term : Request
term = record { asker = by_signal; reason = "SIGTERM" }

abbrev startup : List Event
startup =
    adds_resource db
    ∷ adds_resource cache
    ∷ adds_resource db
    ∷ adds_resource server
    ∷ starts none
    ∷ start_ends true
    ∷ start_ends true
    ∷ start_ends true
    ∷ []

abbrev clean : List (StopTurn × Bool)
clean = (Stops.resolves, false) ∷ (Stops.resolves, false) ∷ (Stops.resolves, false) ∷ []

abbrev whole_run : List Event
whole_run =
    adds_resource db
    ∷ adds_resource cache
    ∷ adds_resource db
    ∷ adds_resource server
    ∷ starts none
    ∷ start_ends true
    ∷ start_ends true
    ∷ asks term 0
    ∷ start_ends true
    ∷ settles 1
    ∷ drained 6
    ∷ stop_ends Stops.resolves false
    ∷ stop_ends Stops.resolves false
    ∷ stop_ends Stops.resolves false
    ∷ []

abbrev clean_result : ShutdownResult
clean_result = record {
  ok = true;
  reason = "SIGTERM";
  timed_out = false;
  failed = [];
  pending = [];
}

whole_run_calls :
    (let s = steps options whole_run new_service in s.calls)
    ≡ start_call "db"
      ∷ start_call "cache"
      ∷ start_call "server"
      ∷ stop_call "cache"
      ∷ stop_call "server"
      ∷ stop_call "db"
      ∷ []
unfolding program
whole_run_calls = refl

whole_run_exits : (let s = steps options whole_run new_service in exit_code s.shutdown) ≡ some 0
unfolding program
whole_run_exits = refl

-- A start that fails undoes those before it.
failed_start :
    (let s =
        steps options
          (adds_resource db
            ∷ adds_resource server
            ∷ starts none
            ∷ start_ends true
            ∷ start_ends false
            ∷ stop_ends Stops.rejects false
            ∷ [])
          new_service in
      s.calls)
    ≡ start_call "db" ∷ start_call "server" ∷ stop_call "db" ∷ []
unfolding program
failed_start = refl

steps-Ordered_example :
    InOrder (started options whole_run [] new_service) (steps options whole_run new_service)
steps-Ordered_example = steps-Ordered options whole_run

startup_succeeded : started options whole_run [] new_service ≡ db ∷ cache ∷ server ∷ []
unfolding program started
startup_succeeded = refl

shutdown-stops_example :
    (let s = steps options whole_run new_service in (s.calls ≡ []) ⊎ RanThrough s.resources s.calls)
unfolding program
shutdown-stops_example = shutdown-stops options whole_run term clean_result refl refl refl

shutdown-ends_example : IsOver term (
    steps options (asks term 0 ∷ drained 5 ∷ stop_events clean) (steps options startup new_service))
unfolding program
shutdown-ends_example =
    shutdown-ends options term 0 5 clean (steps options startup new_service) refl refl refl
      (omega arith)

-- A resource that shuts the service down while it is started.
abbrev registered : Service
registered = record new_service { resources = db ∷ server ∷ [] }

abbrev at_once : Request
at_once = record { asker = caller; reason = "no licence" }

abbrev lost_run : List Event
lost_run = starts (some at_once) ∷ all_well (db ∷ server ∷ []) ++ asks term 7 ∷ settles 8 ∷ []

lost_run_calls :
    (let s = steps options lost_run registered in s.calls)
    ≡ start_call "db" ∷ start_call "server" ∷ []
unfolding program
lost_run_calls = refl

shutdown-lost_example :
    (let t = steps options lost_run registered in
      (t.state ≡ running)
      × (t.shutdown ≡ finished at_once (nothing_runs at_once true))
      × (t.calls ≡ [] ++ starts_of (db ∷ server ∷ [])))
shutdown-lost_example =
    shutdown-lost options at_once db (server ∷ []) (asks term 7 ∷ settles 8 ∷ []) registered refl
      refl refl

stop_sequence-sorts_example :
    (es : List Entry) × (stop_sequence (db ∷ cache ∷ server ∷ []) ≡ map resource_of es)
    × Perm es (entries 0 (db ∷ cache ∷ server ∷ []))
    × Sorted es
stop_sequence-sorts_example = stop_sequence-sorts (db ∷ cache ∷ server ∷ [])

-- A check that need not pass, and one of the liveness kind.
abbrev optional_check : HealthCheck
optional_check = record { name = "mail"; kind = none; critical = some false }

abbrev loop_check : HealthCheck
loop_check = record { name = "loop"; kind = some liveness; critical = none }

abbrev all_pass : HealthCheck → Outcome
all_pass check = resolves true

abbrev all_fail : HealthCheck → Outcome
all_fail check = rejects

run_checks-worst_example :
    (let report = run_checks (optional_check ∷ []) all_fail running in report.status)
    ≡ worst
        (any (fails_badly all_fail) (optional_check ∷ []))
        (any (fails all_fail) (optional_check ∷ []))
run_checks-worst_example = run_checks-worst (optional_check ∷ []) all_fail running

probes_fail_example :
    ((let report = check_readiness (loop_check ∷ optional_check ∷ []) all_pass running stopping in
        is_fail report.status)
      ≡ not (is_running running && is_running stopping)
        || any (fails_badly all_pass) (loop_check ∷ optional_check ∷ []))
    × ((let report = check_liveness (loop_check ∷ optional_check ∷ []) all_pass running in
          is_fail report.status)
        ≡ is_failed running
          || any
              (fails_badly all_pass)
              (filter (λ c. is_liveness c.kind) (loop_check ∷ optional_check ∷ [])))
probes_fail_example = probes_fail (loop_check ∷ optional_check ∷ []) all_pass running stopping

-- A variable with a default, and two that are required.
abbrev spec : List (String × EnvVar String)
spec =
    ("PORT", default "3000" (required some))
    ∷ ("MODE", env_enum ("dev" ∷ "prod" ∷ []))
    ∷ ("URL", optional env_string)
    ∷ ("KEY", env_string)
    ∷ []

abbrev source : EnvSource
source = ("PORT", some "") ∷ ("MODE", some "test") ∷ ("OTHER", some "x") ∷ []

spec_refused :
    load_env spec source
    ≡ refused (
        record { variable = "MODE"; problem = invalid }
        ∷ record { variable = "KEY"; problem = missing }
        ∷ [])
unfolding environment
spec_refused = refl

load_env-IsLoaded_example :
    IsLoaded
      (values source spec)
      (issues source spec)
      (load_env spec source)
      (require_env spec source)
load_env-IsLoaded_example = load_env-IsLoaded spec source
