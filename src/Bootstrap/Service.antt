-- ===== src/Bootstrap/Service.antt =====
-- packages/bootstrap/src/service.ts as a machine: an event is what runs without a pause between two
-- awaits. Only one loop over the resources is under way at a time, and `activity` says where it is;
-- `calls` lists the calls of `start` and `stop` in their order, also where a resource lacks the method.
-- Durations are left out, and times are in milliseconds.
pub mod Stops
pub mod Calls
pub mod Phases
pub mod Runs
pub mod Sequence
pub mod Ends
pub mod Lost
pub mod Order
use first_principles.Base.Int.{ℤ, pos}
use first_principles.Base.{
  ℕ, String, Bool, true, false, not, ◌&&◌, Option, none, some, List, [], ◌∷◌, ◌++◌, map,
  if◌then◌else◌, str_eq, any, leb, ltb, min,
}
use first_principles.Bootstrap.Checks.{
  ServiceState, idle, starting, running, stopping, stopped, failed, HealthCheck,
}
use first_principles.Bootstrap.Service.Stops.{
  Resource, StopTurn, StopRun, StopOutcome, StopLoop, ended, awaiting, stop_sequence, stop_next,
  after_turn, is_empty,
}

pub record ServiceOptions : Type 0 where
  pub shutdown_timeout_ms : ℕ
  pub drain_delay_ms : ℕ

-- Who asked for the shutdown: a caller, or a signal, which exits the process at the end.
pub data Asker : Type 0 where
  caller by_signal : Asker

pub record Request : Type 0 where
  pub asker : Asker
  pub reason : String

pub record ShutdownResult : Type 0 where
  pub ok : Bool
  pub reason : String
  pub timed_out : Bool
  pub failed : List String
  pub pending : List String

-- `at up r rest` awaits the start of `r`; `undoing` stops what was up before the start of a resource
-- failed; `clearing` stops everything.
pub data Activity : Type 0 where
  resting : Activity
  at : List Resource → Resource → List Resource → Activity
  undoing : List Resource → StopRun → Activity
  draining : Request → Activity
  clearing : Request → StopRun → Activity

-- `shutdownPromise`
pub data Shutdown : Type 0 where
  not_asked : Shutdown
  awaits_startup : Request → Shutdown
  under_way : Request → Shutdown
  finished : Request → ShutdownResult → Shutdown

pub data Call : Type 0 where
  start_call stop_call : String → Call

pub record Service : Type 0 where
  pub resources : List Resource
  pub checks : List HealthCheck
  pub state : ServiceState
  pub activity : Activity
  pub shutdown : Shutdown
  pub listening : Bool
  pub calls : List Call

-- `starts` has the shutdown, if there is one, that the start of the first resource calls itself; a later one is
-- asked for when that start or stop has been called.
pub data Event : Type 0 where
  adds_resource : Resource → Event
  adds_check : HealthCheck → Event
  starts : Option Request → Event
  start_ends : Bool → Event
  stop_ends : StopTurn → Bool → Event
  asks : Request → ℕ → Event
  settles drained : ℕ → Event

abbrev pub new_service : Service
new_service = record {
  resources = [];
  checks = [];
  state = idle;
  activity = resting;
  shutdown = not_asked;
  listening = false;
  calls = [];
}

abbrev is_idle : ServiceState → Bool
is_idle idle = true
is_idle _ = false

-- Where the code throws a LifecycleError, there is no service.
unfoldable pub add_resource : Resource → Service → Option Service
add_resource resource s =
    if not (is_idle s.state)
    then none
    else if any (λ r. str_eq r.name resource.name) s.resources
    then none
    else some (record s { resources = s.resources ++ resource ∷ [] })

unfoldable pub add_check : HealthCheck → Service → Option Service
add_check check s =
    if not (is_idle s.state)
    then none
    else if any (λ c. str_eq c.name check.name) s.checks
    then none
    else some (record s { checks = s.checks ++ check ∷ [] })

-- The loop of `start`, from a resource on.
unfoldable pub start_next : List Resource → List Resource → Service → Service
start_next up [] s = record s { state = running; activity = resting }
start_next up (r ∷ rest) s = record s {
  activity = at up r rest;
  calls = s.calls ++ start_call r.name ∷ [];
}

-- The loop of `stopAll` after a start failed, and in a shutdown.
unfoldable pub undo : List Resource → StopLoop → Service → Service
undo up (ended _) s = record s { state = failed; activity = resting; listening = false }
undo up (awaiting run) s = record s {
  activity = undoing up run;
  calls = s.calls ++ (let r = run.current in stop_call r.name ∷ []);
}

abbrev pub result_of : Request → StopOutcome → ShutdownResult
result_of request outcome = record {
  ok = is_empty outcome.failed && not outcome.timed_out;
  reason = request.reason;
  timed_out = outcome.timed_out;
  failed = outcome.failed;
  pending = outcome.pending;
}

unfoldable pub clear : Request → StopLoop → Service → Service
clear request (ended outcome) s = record s {
  state = stopped;
  activity = resting;
  listening = false;
  shutdown = finished request (result_of request outcome);
}
clear request (awaiting run) s = record s {
  activity = clearing request run;
  calls = s.calls ++ (let r = run.current in stop_call r.name ∷ []);
}

-- `await stopAll(resources, …)`, with the budget that is left.
abbrev pub clear_all : ServiceOptions → Request → ℕ → Service → Service
clear_all options request elapsed s =
    clear request
      (stop_next (stop_sequence s.resources) [] (leb options.shutdown_timeout_ms elapsed)) s

-- A shutdown that finds nothing running.
abbrev pub nothing_runs : Request → Bool → ShutdownResult
nothing_runs request ok = record {
  ok = ok;
  reason = request.reason;
  timed_out = false;
  failed = [];
  pending = [];
}

-- A shutdown that is called while the first `start` is being called: `startPromise` is not set yet, so it
-- does not wait, and reports a service with nothing running, while the startup goes on.
unfoldable pub ask_within : Option Request → List Resource → Shutdown → Service → Service
ask_within (some request) (r ∷ rest) not_asked s = record s {
  listening = false;
  shutdown = finished request (nothing_runs request true);
}
ask_within _ _ _ s = s

unfoldable pub start : Option Request → Service → Option Service
start within s =
    let begun = record s { state = starting; listening = true } in
    if not (is_idle s.state)
    then none
    else some (start_next [] s.resources (ask_within within s.resources s.shutdown begun))

abbrev pub conclude : Request → Bool → ServiceState → Service → Service
conclude request ok state s = record s {
  state = state;
  activity = resting;
  listening = false;
  shutdown = finished request (nothing_runs request ok);
}

-- The body of the shutdown, once the startup has settled.
unfoldable pub shut_down : ServiceOptions → Request → ℕ → ServiceState → Service → Service
shut_down options request elapsed running s =
    let stops = record s { state = stopping; shutdown = under_way request } in
    if ltb 0 (min options.drain_delay_ms options.shutdown_timeout_ms)
    then record stops { activity = draining request }
    else clear_all options request elapsed stops
shut_down options request elapsed idle s = conclude request true stopped s
shut_down options request elapsed failed s = conclude request false failed s
shut_down options request elapsed state s = conclude request true state s

abbrev pub wait_for_startup : ServiceOptions → Request → ℕ → ServiceState → Service → Service
wait_for_startup options request elapsed starting s = record s { shutdown = awaits_startup request }
wait_for_startup options request elapsed state s = shut_down options request elapsed state s

-- `shutdown`, which answers later calls with the first promise. A signal is heard only while its
-- handler is installed.
abbrev pub ask : ServiceOptions → Request → ℕ → Shutdown → Service → Service
ask options request elapsed not_asked s = wait_for_startup options request elapsed s.state s
ask options request elapsed _ s = s

abbrev pub is_heard : Asker → Bool → Bool
is_heard caller listening = true
is_heard by_signal listening = listening

unfoldable pub shutdown_by : ServiceOptions → Request → ℕ → Service → Service
shutdown_by options request elapsed s =
    if is_heard request.asker s.listening then ask options request elapsed s.shutdown s else s

abbrev pub settled_shutdown : ServiceOptions → ℕ → Shutdown → ServiceState → Service → Service
settled_shutdown options elapsed (awaits_startup request) starting s = s
settled_shutdown options elapsed (awaits_startup request) state s =
    shut_down options request elapsed state s
settled_shutdown options elapsed _ state s = s

unfoldable pub on_start : ServiceOptions → Bool → Activity → Service → Service
on_start options true (at up r rest) s = start_next (up ++ r ∷ []) rest s
on_start options false (at up r rest) s =
    undo up (stop_next (stop_sequence up) [] (leb options.shutdown_timeout_ms 0)) s
on_start options _ _ s = s

unfoldable pub on_stop : StopTurn → Bool → Activity → Service → Service
on_stop turn aborted (undoing up run) s = undo up (after_turn run turn aborted) s
on_stop turn aborted (clearing request run) s = clear request (after_turn run turn aborted) s
on_stop turn aborted _ s = s

abbrev pub on_drained : ServiceOptions → ℕ → Activity → Service → Service
on_drained options elapsed (draining request) s = clear_all options request elapsed s
on_drained options elapsed _ s = s

-- What throws leaves the service as it is.
abbrev pub or_same : Service → Option Service → Service
or_same s none = s
or_same s (some next) = next

unfoldable pub step : ServiceOptions → Event → Service → Service
step options (adds_resource resource) s = or_same s (add_resource resource s)
step options (adds_check check) s = or_same s (add_check check s)
step options (starts within) s = or_same s (start within s)
step options (start_ends well) s = on_start options well s.activity s
step options (stop_ends turn aborted) s = on_stop turn aborted s.activity s
step options (asks request elapsed) s = shutdown_by options request elapsed s
step options (settles elapsed) s = settled_shutdown options elapsed s.shutdown s.state s
step options (drained elapsed) s = on_drained options elapsed s.activity s

unfoldable pub steps : ServiceOptions → List Event → Service → Service
steps options [] s = s
steps options (event ∷ events) s = steps options events (step options event s)

-- The code that the process exits with at the end of a shutdown.
abbrev exit_after : Asker → Bool → Option ℕ
exit_after caller ok = none
exit_after by_signal ok = if ok then some 0 else some 1

unfoldable pub exit_code : Shutdown → Option ℕ
exit_code (finished request result) = exit_after request.asker result.ok
exit_code _ = none
