-- ===== src/Bootstrap/Service/Sequence.antt =====
-- What a service has called at any moment, and when it has stopped.
use first_principles.Base.{
  ◌≡◌, refl, sym, ap, ◌∙◌, ◌⊎◌, inl, inr, ◌+◌, true, List, [], ◌∷◌, ◌++◌, length, arith,
}
use first_principles.Bootstrap.Checks.{
  ServiceState, idle, starting, running, stopping, stopped, failed,
}
use first_principles.Bootstrap.Service.Stops.{Resource, stop_sequence}
use first_principles.Bootstrap.Service.{
  ServiceOptions, Activity, resting, at, undoing, draining, clearing, Shutdown, finished, Request,
  ShutdownResult, Call, Service, Event, new_service, steps,
}
use first_principles.Bootstrap.Service.Calls.{starts_of, stops_of, Ordered, Kept, Fits, started}
use first_principles.Bootstrap.Service.Phases.{started-Ordered, never-Ordered}
use first_principles.Bootstrap.Service.Runs.{steps-Fitting}
use mathlib.Core.Path.{subst}
use mathlib.Core.List.{append_assoc, append-nil}

-- The calls of a service are in order, where the starts of `done` have succeeded.
abbrev pub InOrder : List Resource → Service → Type 0
InOrder done s = (left : List Resource) × Ordered s.resources done left s.calls

Fits-Ordered :
    (a : Activity) (state : ServiceState) (shutdown : Shutdown) (resources : List Resource)
    (calls : List Call) (done : List Resource)
    → Fits a state shutdown resources calls done
    → (left : List Resource) × Ordered resources done left calls
Fits-Ordered resting idle shutdown resources calls done h =
    ([], rw h.1 (never-Ordered resources calls h.0))
Fits-Ordered resting starting shutdown resources calls done h = absurd h
Fits-Ordered resting stopping shutdown resources calls done h = absurd h
Fits-Ordered resting running shutdown resources calls done h =
    (stop_sequence resources, rw h.1 (started-Ordered resources calls h.0))
Fits-Ordered resting stopped shutdown resources calls done h =
    let (left, is, _, _) = h in (left, is)
Fits-Ordered resting failed shutdown resources calls done h = h
Fits-Ordered (at up r rest) state shutdown resources calls done h = (
  stop_sequence up,
  rw h.3 (record {
    attempted = up ++ r ∷ [];
    later = rest;
    gone = [];
    registered = h.1 ∙ sym (append_assoc up (r ∷ []) rest);
    succeeded = inr (r, refl);
    sequence = refl;
    made = h.2 ∙ sym (append-nil (starts_of (up ++ r ∷ [])));
  }),
)
Fits-Ordered (undoing up run) state shutdown resources calls done h = (run.rest, h.1)
Fits-Ordered (draining request) state shutdown resources calls done h =
    (stop_sequence resources, rw h.3 (started-Ordered resources calls h.2))
Fits-Ordered (clearing request run) state shutdown resources calls done h = (run.rest, h.2)

-- Whatever happens to a new service, and in whatever order, its calls are these: it starts resources one by one
-- in the order of their registration, and then stops, in stop order and each once, some first ones of those whose
-- start ended well. All that it tried to start ended well, or all but the last.
pub steps-Ordered :
    (options : ServiceOptions) (events : List Event)
    → InOrder (started options events [] new_service) (steps options events new_service)
steps-Ordered options events =
    let s = steps options events new_service in
    Fits-Ordered s.activity s.state s.shutdown s.resources s.calls
      (started options events [] new_service)
      (steps-Fitting options events [] new_service (refl, refl))

-- Every resource was started, in the order of registration, and then every one was stopped, in stop order.
abbrev pub RanThrough : List Resource → List Call → Type 0
RanThrough resources calls = calls ≡ starts_of resources ++ stops_of (stop_sequence resources)

length-append :
    (xs : List Resource) (ys : List Resource) → length (xs ++ ys) ≡ length xs + length ys
length-append [] ys = omega arith
length-append (x ∷ xs) ys = omega (arith, length-append xs ys)

all_attempted :
    (resources attempted later : List Resource)
    → resources ≡ attempted ++ later
    → (attempted ≡ resources) ⊎ ((r : Resource) × (attempted ≡ resources ++ r ∷ []))
    → attempted ≡ resources
all_attempted resources attempted later split (inl all) = all
all_attempted resources attempted later split (inr (r, more)) = absurd (
    omega (
      arith,
      ap length split,
      length-append attempted later,
      ap length more,
      length-append resources (r ∷ []),
    ))

Ordered-RanThrough :
    (resources : List Resource) (calls : List Call)
    → Ordered resources resources [] calls
    → RanThrough resources calls
Ordered-RanThrough resources calls h =
    let all : h.attempted ≡ resources =
      all_attempted resources h.attempted h.later h.registered h.succeeded in
    let over : h.gone ≡ stop_sequence resources = sym (h.sequence ∙ append-nil h.gone) in
    h.made
    ∙ (ap (λ l. starts_of l ++ stops_of h.gone) all
        ∙ ap (λ l. starts_of resources ++ stops_of l) over)

stopped-RanThrough :
    (a : Activity) (shutdown : Shutdown) (resources : List Resource) (calls : List Call)
    (done : List Resource)
    → Fits a stopped shutdown resources calls done
    → (request : Request) (result : ShutdownResult) → shutdown ≡ finished request result
    → result.ok ≡ true
    → (calls ≡ []) ⊎ RanThrough resources calls
stopped-RanThrough resting shutdown resources calls done h request result same ok =
    let (left, is, kept, whole) = h in
    let all : left ≡ [] = subst (λ x. Kept x left) same kept ok in
    elim whole [
      | inl quiet ↦ inl quiet
      | inr every ↦
          let ordered : Ordered resources resources [] calls =
            subst (λ up. Ordered resources up [] calls) every
              (subst (λ l. Ordered resources done l calls) all is) in
          inr (Ordered-RanThrough resources calls ordered)
    ]
stopped-RanThrough (at up r rest) shutdown resources calls done h request result same ok =
    absurd (ground (arith, h.0))
stopped-RanThrough (undoing up run) shutdown resources calls done h request result same ok =
    absurd (ground (arith, h.0))
stopped-RanThrough (draining other) shutdown resources calls done h request result same ok =
    absurd (ground (arith, h.0))
stopped-RanThrough (clearing other run) shutdown resources calls done h request result same ok =
    absurd (ground (arith, h.0))

-- When a service has stopped and its shutdown reports success, either it called nothing, or it started every
-- resource in the order of registration and then told every one to stop, in stop order, each once.
pub shutdown-stops :
    (options : ServiceOptions) (events : List Event) (request : Request) (result : ShutdownResult)
    → (let s = steps options events new_service in s.state) ≡ stopped
    → (let s = steps options events new_service in s.shutdown) ≡ finished request result
    → result.ok ≡ true
    → (let s = steps options events new_service in (s.calls ≡ []) ⊎ RanThrough s.resources s.calls)
shutdown-stops options events request result over same ok =
    let s = steps options events new_service in
    let done = started options events [] new_service in
    stopped-RanThrough s.activity s.shutdown s.resources s.calls done
      (subst (λ x. Fits s.activity x s.shutdown s.resources s.calls done) over
        (steps-Fitting options events [] new_service (refl, refl)))
      request result same ok
