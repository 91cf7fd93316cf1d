-- ===== src/Bootstrap/Service/Runs.antt =====
-- Over any run of a service, its calls are in order.
use mathlib.Core.Path.{subst}
use mathlib.Core.List.{append_assoc}
use first_principles.Base.{
  ◌≡◌, refl, sym, ◌∙◌, ℕ, Bool, true, false, not, Option, none, some, List, [], ◌∷◌, ◌++◌,
  if◌then◌else◌, str_eq, any, leb, arith,
}
use first_principles.Bootstrap.Checks.{
  ServiceState, idle, starting, running, stopping, stopped, failed, HealthCheck,
}
use first_principles.Bootstrap.Service.Stops.{
  Resource, StopTurn, stop_sequence, stop_next, after_turn,
}
use first_principles.Bootstrap.Service.{
  ServiceOptions, Activity, resting, at, undoing, draining, clearing, Shutdown, not_asked,
  awaits_startup, under_way, finished, Request, Call, Service, Event, adds_resource, adds_check,
  starts, start_ends, stop_ends, asks, settles, drained, is_idle, add_resource, add_check,
  start_next, undo, start, ask_within, wait_for_startup, ask, is_heard, shutdown_by,
  settled_shutdown, on_start, on_stop, on_drained, or_same, step, steps,
}
use first_principles.Bootstrap.Service.Calls.{Fits, Fitting, with_started, started}
use first_principles.Bootstrap.Service.Phases.{
  stop_next-Goes, after_turn-Goes, start_next-Fitting, undo-Fitting, clear-Fitting, undone-Ordered,
  clear_all-Fitting, Fitting-if, shut_down-Fitting, IsOpen, IsSettled, at_rest,
}

module _ (shutdown : Shutdown) (resources : List Resource) (calls : List Call)
    (done : List Resource) where
  idle-calls :
      (a : Activity) (state : ServiceState)
      → Fits a state shutdown resources calls done
      → is_idle state ≡ true
      → (calls ≡ []) × (done ≡ [])
  idle-calls resting idle h e = h
  idle-calls resting starting h e = absurd h
  idle-calls resting stopping h e = absurd h
  idle-calls resting running h e = absurd (ground (arith, e))
  idle-calls resting stopped h e = absurd (ground (arith, e))
  idle-calls resting failed h e = absurd (ground (arith, e))
  idle-calls (at up r rest) state h e = absurd (ground (arith, e, h.0))
  idle-calls (undoing up run) state h e = absurd (ground (arith, e, h.0))
  idle-calls (draining request) state h e = absurd (ground (arith, e, h.0))
  idle-calls (clearing request run) state h e = absurd (ground (arith, e, h.0))

  idle-Fits :
      (more : List Resource) (a : Activity) (state : ServiceState)
      → Fits a state shutdown resources calls done
      → is_idle state ≡ true
      → Fits a state shutdown more calls done
  idle-Fits more resting idle h e = h
  idle-Fits more resting starting h e = absurd h
  idle-Fits more resting stopping h e = absurd h
  idle-Fits more resting running h e = absurd (ground (arith, e))
  idle-Fits more resting stopped h e = absurd (ground (arith, e))
  idle-Fits more resting failed h e = absurd (ground (arith, e))
  idle-Fits more (at up r rest) state h e = absurd (ground (arith, e, h.0))
  idle-Fits more (undoing up run) state h e = absurd (ground (arith, e, h.0))
  idle-Fits more (draining request) state h e = absurd (ground (arith, e, h.0))
  idle-Fits more (clearing request run) state h e = absurd (ground (arith, e, h.0))

  -- A shutdown that is asked for meanwhile changes nothing yet.
  starting-Fits :
      (request : Request) (a : Activity) (state : ServiceState)
      → state ≡ starting
      → Fits a state shutdown resources calls done
      → Fits a state (awaits_startup request) resources calls done
  starting-Fits request resting starting e h = absurd h
  starting-Fits request resting stopping e h = absurd h
  starting-Fits request resting idle e h = h
  starting-Fits request resting running e h = h
  starting-Fits request resting failed e h = h
  starting-Fits request resting stopped e h = absurd (ground (arith, e))
  starting-Fits request (at up r rest) state e h = h
  starting-Fits request (undoing up run) state e h = h
  starting-Fits request (draining other) state e h = absurd (ground (arith, e, h.0))
  starting-Fits request (clearing other run) state e h = absurd (ground (arith, e, h.0))

or_same-Fitting :
    (done : List Resource) (s : Service) (o : Option Service)
    → Fitting done s
    → ((next : Service) → o ≡ some next → Fitting done next)
    → Fitting done (or_same s o)
or_same-Fitting done s none h k = h
or_same-Fitting done s (some next) h k = k next refl

-- What comes after two refusals.
after-refusals :
    (refused again : Bool) (o : Service) (next : Service)
    → (if refused then none else if again then none else some o) ≡ some next
    → (refused ≡ false) × (o ≡ next)
after-refusals false false o next h = (refl, ground (arith, h))
after-refusals true again o next h = absurd (ground (arith, h))
after-refusals false true o next h = absurd (ground (arith, h))

add_resource-Fitting :
    (done : List Resource) (resource : Resource) (s next : Service)
    → Fitting done s
    → add_resource resource s ≡ some next
    → Fitting done next
unfolding add_resource
add_resource-Fitting done resource s next h e =
    let (is, same) =
      after-refusals (not (is_idle s.state)) (any (λ r. str_eq r.name resource.name) s.resources)
        (record s { resources = s.resources ++ resource ∷ [] }) next e in
    rw (← same) (
      idle-Fits s.shutdown s.resources s.calls done (s.resources ++ resource ∷ []) s.activity
        s.state h (ground (arith, is)))

add_check-Fitting :
    (done : List Resource) (check : HealthCheck) (s next : Service)
    → Fitting done s
    → add_check check s ≡ some next
    → Fitting done next
unfolding add_check
add_check-Fitting done check s next h e =
    let (_, same) =
      after-refusals (not (is_idle s.state)) (any (λ c. str_eq c.name check.name) s.checks)
        (record s { checks = s.checks ++ check ∷ [] }) next e in
    rw (← same) h

-- What a shutdown within the first start leaves as it is.
ask_within-keeps :
    (within : Option Request) (list : List Resource) (shutdown : Shutdown) (s : Service)
    → (let next = ask_within within list shutdown s in
        (next.resources ≡ s.resources) × (next.calls ≡ s.calls) × (next.state ≡ s.state))
unfolding ask_within
ask_within-keeps none list shutdown s = (refl, refl, refl)
ask_within-keeps (some request) [] shutdown s = (refl, refl, refl)
ask_within-keeps (some request) (r ∷ rest) not_asked s = (refl, refl, refl)
ask_within-keeps (some request) (r ∷ rest) (awaits_startup other) s = (refl, refl, refl)
ask_within-keeps (some request) (r ∷ rest) (under_way other) s = (refl, refl, refl)
ask_within-keeps (some request) (r ∷ rest) (finished other result) s = (refl, refl, refl)

start-Fitting :
    (done : List Resource) (within : Option Request) (s next : Service)
    → Fitting done s
    → start within s ≡ some next
    → Fitting done next
unfolding start
start-Fitting done within s next h e =
    let begun = record s { state = starting; listening = true } in
    let asked = ask_within within s.resources s.shutdown begun in
    let (is, same) =
      after-refusals (not (is_idle s.state)) false (start_next [] s.resources asked) next e in
    let (quiet, new) =
      idle-calls s.shutdown s.resources s.calls done s.activity s.state h (ground (arith, is)) in
    let (list, calls, state) = ask_within-keeps within s.resources s.shutdown begun in
    rw (← same) (
      subst (λ up. Fitting up (start_next [] s.resources asked)) (sym new)
        (start_next-Fitting [] s.resources asked list (calls ∙ quiet) state))

module _ (options : ServiceOptions) (done : List Resource) (s : Service)
    (fits : Fitting done s) where
  on_start-Fitting :
      (well : Bool) (a : Activity)
      → Fits a s.state s.shutdown s.resources s.calls done
      → Fitting (with_started (start_ends well) a done) (on_start options well a s)
  unfolding on_start
  on_start-Fitting true (at up r rest) h =
      subst (λ l. Fitting (l ++ r ∷ []) (start_next (up ++ r ∷ []) rest s)) (sym h.3)
        (start_next-Fitting (up ++ r ∷ []) rest s (h.1 ∙ sym (append_assoc up (r ∷ []) rest)) h.2
          h.0)
  on_start-Fitting false (at up r rest) h =
      let loop = stop_next (stop_sequence up) [] (leb options.shutdown_timeout_ms 0) in
      subst (λ l. Fitting l (undo up loop s)) (sym h.3)
        (undo-Fitting up up loop s h.0 (
          stop_next-Goes s.resources up s.calls (stop_sequence up) []
            (leb options.shutdown_timeout_ms 0)
            (undone-Ordered s.resources up r rest s.calls h.1 h.2)))
  on_start-Fitting true resting h = fits
  on_start-Fitting false resting h = fits
  on_start-Fitting true (undoing up run) h = fits
  on_start-Fitting false (undoing up run) h = fits
  on_start-Fitting true (draining request) h = fits
  on_start-Fitting false (draining request) h = fits
  on_start-Fitting true (clearing request run) h = fits
  on_start-Fitting false (clearing request run) h = fits

  on_stop-Fitting :
      (turn : StopTurn) (aborted : Bool) (a : Activity)
      → Fits a s.state s.shutdown s.resources s.calls done
      → Fitting done (on_stop turn aborted a s)
  unfolding on_stop
  on_stop-Fitting turn aborted (undoing up run) h =
      undo-Fitting done up (after_turn run turn aborted) s h.0
        (after_turn-Goes s.resources done s.calls run turn aborted h.1)
  on_stop-Fitting turn aborted (clearing request run) h =
      clear-Fitting done request (after_turn run turn aborted) s h.0 h.1 h.3
        (after_turn-Goes s.resources done s.calls run turn aborted h.2)
  on_stop-Fitting turn aborted resting h = fits
  on_stop-Fitting turn aborted (at up r rest) h = fits
  on_stop-Fitting turn aborted (draining request) h = fits

  on_drained-Fitting :
      (elapsed : ℕ) (a : Activity)
      → Fits a s.state s.shutdown s.resources s.calls done
      → Fitting done (on_drained options elapsed a s)
  on_drained-Fitting elapsed (draining request) h =
      clear_all-Fitting options request elapsed done s h.0 h.1 h.2 h.3
  on_drained-Fitting elapsed resting h = fits
  on_drained-Fitting elapsed (undoing up run) h = fits
  on_drained-Fitting elapsed (clearing request run) h = fits
  on_drained-Fitting elapsed (at up r rest) h = fits

  rested :
      (state : ServiceState)
      → s.state ≡ state
      → IsSettled state
      → IsOpen s.shutdown
      → Fits resting state s.shutdown s.resources s.calls done
  rested state same settled pends =
      let h : Fits s.activity state s.shutdown s.resources s.calls done =
        subst (λ x. Fits s.activity x s.shutdown s.resources s.calls done) same fits in
      at_rest s.shutdown s.resources s.calls done s.activity state h settled pends

  wait_for_startup-Fitting :
      (request : Request) (elapsed : ℕ) (state : ServiceState)
      → s.state ≡ state
      → IsOpen s.shutdown
      → Fitting done (wait_for_startup options request elapsed state s)
  wait_for_startup-Fitting request elapsed starting same pends =
      starting-Fits s.shutdown s.resources s.calls done request s.activity s.state same fits
  wait_for_startup-Fitting request elapsed idle same pends =
      shut_down-Fitting options request elapsed idle done s (rested idle same tt pends) pends
  wait_for_startup-Fitting request elapsed running same pends =
      shut_down-Fitting options request elapsed running done s (rested running same tt pends) pends
  wait_for_startup-Fitting request elapsed stopping same pends =
      shut_down-Fitting options request elapsed stopping done s (rested stopping same tt pends)
        pends
  wait_for_startup-Fitting request elapsed stopped same pends =
      shut_down-Fitting options request elapsed stopped done s (rested stopped same tt pends) pends
  wait_for_startup-Fitting request elapsed failed same pends =
      shut_down-Fitting options request elapsed failed done s (rested failed same tt pends) pends

  settled_shutdown-Fitting :
      (elapsed : ℕ) (shutdown : Shutdown) (state : ServiceState)
      → s.state ≡ state
      → (IsOpen shutdown → IsOpen s.shutdown)
      → Fitting done (settled_shutdown options elapsed shutdown state s)
  settled_shutdown-Fitting elapsed (awaits_startup request) starting same pends = fits
  settled_shutdown-Fitting elapsed (awaits_startup request) idle same pends =
      shut_down-Fitting options request elapsed idle done s (rested idle same tt (pends tt))
        (pends tt)
  settled_shutdown-Fitting elapsed (awaits_startup request) running same pends =
      shut_down-Fitting options request elapsed running done s (rested running same tt (pends tt))
        (pends tt)
  settled_shutdown-Fitting elapsed (awaits_startup request) stopping same pends =
      shut_down-Fitting options request elapsed stopping done s (rested stopping same tt (pends tt))
        (pends tt)
  settled_shutdown-Fitting elapsed (awaits_startup request) stopped same pends =
      shut_down-Fitting options request elapsed stopped done s (rested stopped same tt (pends tt))
        (pends tt)
  settled_shutdown-Fitting elapsed (awaits_startup request) failed same pends =
      shut_down-Fitting options request elapsed failed done s (rested failed same tt (pends tt))
        (pends tt)
  settled_shutdown-Fitting elapsed not_asked state same pends = fits
  settled_shutdown-Fitting elapsed (under_way request) state same pends = fits
  settled_shutdown-Fitting elapsed (finished request result) state same pends = fits

  ask-Fitting :
      (request : Request) (elapsed : ℕ) (shutdown : Shutdown)
      → (IsOpen shutdown → IsOpen s.shutdown)
      → Fitting done (ask options request elapsed shutdown s)
  ask-Fitting request elapsed not_asked pends =
      wait_for_startup-Fitting request elapsed s.state refl (pends tt)
  ask-Fitting request elapsed (awaits_startup other) pends = fits
  ask-Fitting request elapsed (under_way other) pends = fits
  ask-Fitting request elapsed (finished other result) pends = fits

  step-Fitting :
      (event : Event) → Fitting (with_started event s.activity done) (step options event s)
  unfolding step shutdown_by
  step-Fitting (adds_resource resource) =
      or_same-Fitting done s (add_resource resource s) fits
        (λ next e. add_resource-Fitting done resource s next fits e)
  step-Fitting (adds_check check) =
      or_same-Fitting done s (add_check check s) fits
        (λ next e. add_check-Fitting done check s next fits e)
  step-Fitting (starts within) =
      or_same-Fitting done s (start within s) fits
        (λ next e. start-Fitting done within s next fits e)
  step-Fitting (start_ends well) = on_start-Fitting well s.activity fits
  step-Fitting (stop_ends turn aborted) = on_stop-Fitting turn aborted s.activity fits
  step-Fitting (asks request elapsed) =
      Fitting-if (is_heard request.asker s.listening) done
        (ask options request elapsed s.shutdown s) s
        (ask-Fitting request elapsed s.shutdown (λ o. o)) fits
  step-Fitting (settles elapsed) = settled_shutdown-Fitting elapsed s.shutdown s.state refl (λ o. o)
  step-Fitting (drained elapsed) = on_drained-Fitting elapsed s.activity fits

pub steps-Fitting :
    (options : ServiceOptions) (events : List Event) (done : List Resource) (s : Service)
    → Fitting done s
    → Fitting (started options events done s) (steps options events s)
unfolding steps started
steps-Fitting options [] done s h = h
steps-Fitting options (event ∷ events) done s h =
    steps-Fitting options events (with_started event s.activity done) (step options event s)
      (step-Fitting options done s h event)
