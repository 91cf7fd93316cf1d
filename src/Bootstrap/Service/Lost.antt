-- ===== src/Bootstrap/Service/Lost.antt =====
-- A shutdown that is called while the first resource is being started.
use mathlib.Core.Path.{subst}
use mathlib.Core.List.{append_assoc, append-nil}
use first_principles.Base.{
  ◌≡◌, refl, sym, ap, ◌∙◌, Bool, true, false, some, List, [], ◌∷◌, ◌++◌, map, if◌then◌else◌, arith,
}
use first_principles.Bootstrap.Checks.{idle, running, starting}
use first_principles.Bootstrap.Service.Stops.{Resource}
use first_principles.Bootstrap.Service.{
  ServiceOptions, resting, not_asked, finished, Request, ShutdownResult, Service, Event,
  adds_resource, adds_check, starts, start_ends, stop_ends, asks, settles, drained, nothing_runs,
  add_resource, add_check, start_call, ask_within, start_next, start, ask, is_heard, shutdown_by,
  settled_shutdown, on_start, on_stop, on_drained, step, steps,
}
use first_principles.Bootstrap.Service.Calls.{starts_of}

-- A service that runs although its shutdown has a result.
pub record IsLost (request : Request) (result : ShutdownResult) (s : Service) : Type 0 where
  pub runs : s.state ≡ running
  pub rests : s.activity ≡ resting
  pub answered : s.shutdown ≡ finished request result

both_same : (b : Bool) (s : Service) → (if b then s else s) ≡ s
both_same true s = refl
both_same false s = refl

module _ (options : ServiceOptions) (request : Request) (result : ShutdownResult) (s : Service)
    (lost : IsLost request result s) where
  step-IsLost : (event : Event) → step options event s ≡ s
  unfolding step add_resource add_check start on_start on_stop shutdown_by
  step-IsLost (adds_resource resource) = ground (arith, lost.runs)
  step-IsLost (adds_check check) = ground (arith, lost.runs)
  step-IsLost (starts within) = ground (arith, lost.runs)
  step-IsLost (start_ends true) = ap (λ a. on_start options true a s) lost.rests
  step-IsLost (start_ends false) = ap (λ a. on_start options false a s) lost.rests
  step-IsLost (stop_ends turn aborted) = ap (λ a. on_stop turn aborted a s) lost.rests
  step-IsLost (asks other elapsed) =
      ap (λ x. if is_heard other.asker s.listening then ask options other elapsed x s else s)
        lost.answered
      ∙ both_same (is_heard other.asker s.listening) s
  step-IsLost (settles elapsed) =
      ap (λ x. settled_shutdown options elapsed x s.state s) lost.answered
  step-IsLost (drained elapsed) = ap (λ a. on_drained options elapsed a s) lost.rests

  steps-IsLost : (events : List Event) → steps options events s ≡ s
  unfolding steps
  steps-IsLost [] = refl
  steps-IsLost (event ∷ events) =
      ap (steps options events) (step-IsLost event) ∙ steps-IsLost events

-- Every start that is awaited ends well.
abbrev pub all_well : List Resource → List Event
all_well = map (λ r. start_ends true)

module _ (options : ServiceOptions) (request : Request) (result : ShutdownResult)
    (after : List Event) where
  startup-IsLost :
      (up rest : List Resource) (s : Service)
      → s.shutdown ≡ finished request result
      → (let t = steps options (all_well rest ++ after) (start_next up rest s) in
          IsLost request result t × (t.calls ≡ s.calls ++ starts_of rest))
  unfolding steps step start_next on_start
  startup-IsLost up [] s answered =
      let t = record s { state = running; activity = resting } in
      let lost : IsLost request result t = record {
        runs = refl;
        rests = refl;
        answered = answered;
      } in
      let same = steps-IsLost options request result t lost after in
      rw same (lost, sym (append-nil s.calls))
  startup-IsLost up (r ∷ rest) s answered =
      let next = start_next up (r ∷ rest) s in
      let (lost, made) = startup-IsLost (up ++ r ∷ []) rest next answered in
      (lost, made ∙ append_assoc s.calls (start_call r.name ∷ []) (starts_of rest))

-- A shutdown that the first resource calls within its own start, where the service was idle and no shutdown was
-- asked for, is lost: it reports success with nothing running, yet when next every start ends well all resources
-- are started, the service runs, and nothing that happens then, further shutdowns and signals included, stops it or
-- calls a start or a stop.
pub shutdown-lost :
    (options : ServiceOptions) (request : Request) (r : Resource) (rest : List Resource)
    (after : List Event) (s : Service)
    → s.state ≡ idle
    → s.shutdown ≡ not_asked
    → s.resources ≡ r ∷ rest
    → (let t = steps options (starts (some request) ∷ all_well (r ∷ rest) ++ after) s in
        (t.state ≡ running)
        × (t.shutdown ≡ finished request (nothing_runs request true))
        × (t.calls ≡ s.calls ++ starts_of (r ∷ rest)))
unfolding steps step start ask_within
shutdown-lost options request r rest after s new fresh list =
    let begun = record s { state = starting; listening = true } in
    let asked = ask_within (some request) (r ∷ rest) not_asked begun in
    let goes : step options (starts (some request)) s ≡ start_next [] (r ∷ rest) asked =
      ground (arith, new, fresh, list) in
    let (lost, made) =
      startup-IsLost options request (nothing_runs request true) after [] (r ∷ rest) asked refl in
    subst
      (λ x.
        let t = steps options (all_well (r ∷ rest) ++ after) x in
        (t.state ≡ running)
        × (t.shutdown ≡ finished request (nothing_runs request true))
        × (t.calls ≡ s.calls ++ starts_of (r ∷ rest)))
      (sym goes) (lost.runs, lost.answered, made)
