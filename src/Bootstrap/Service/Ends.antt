-- ===== src/Bootstrap/Service/Ends.antt =====
-- How runs of a service end.
use first_principles.Base.{
  ◌≡◌, refl, sym, ap, ◌∙◌, ℕ, suc, ◌≤◌, Bool, true, false, String, List, [], ◌∷◌, map, length,
  if◌then◌else◌, leb, ltb, min, arith,
}
use first_principles.Bootstrap.Checks.{running, stopping, stopped}
use first_principles.Bootstrap.Service.Stops.{
  Resource, StopTurn, resolves, rejects, deadline, StopRun, StopLoop, ended, awaiting,
  stop_sequence, stop_next, after_turn, length-stop_sequence,
}
use first_principles.Bootstrap.Service.{
  ServiceOptions, resting, draining, finished, Request, ShutdownResult, Service, Event, stop_ends,
  clear, clear_all, not_asked, under_way, asks, drained, is_heard, shutdown_by, shut_down,
  wait_for_startup, ask, on_drained, on_stop, step, steps, result_of,
}
use mathlib.Core.Path.{subst}

-- How many stops a loop may still wait for.
abbrev waits : StopLoop → ℕ
waits (ended outcome) = 0
waits (awaiting run) = suc (length run.rest)

waits-stop_next :
    (list : List Resource) (broken : List String) (aborted : Bool)
    → waits (stop_next list broken aborted) ≤ length list
unfolding stop_next
waits-stop_next [] broken aborted = omega arith
waits-stop_next (r ∷ rest) broken true = omega arith
waits-stop_next (r ∷ rest) broken false = omega arith

waits-after_turn :
    (run : StopRun) (turn : StopTurn) (aborted : Bool)
    → waits (after_turn run turn aborted) ≤ length run.rest
unfolding after_turn
waits-after_turn run resolves aborted = waits-stop_next run.rest run.failed aborted
waits-after_turn run rejects aborted = waits-stop_next run.rest _ aborted
waits-after_turn run deadline aborted = omega arith

-- Waits for stops that end somehow.
abbrev pub stop_events : List (StopTurn × Bool) → List Event
stop_events = map (λ t. stop_ends t.0 t.1)

steps-resting :
    (options : ServiceOptions) (turns : List (StopTurn × Bool)) (s : Service)
    → s.activity ≡ resting
    → steps options (stop_events turns) s ≡ s
unfolding steps step on_stop
steps-resting options [] s h = refl
steps-resting options (t ∷ turns) s h =
    let same : on_stop t.0 t.1 s.activity s ≡ s = ap (λ a. on_stop t.0 t.1 a s) h in
    ap (λ x. steps options (stop_events turns) x) same ∙ steps-resting options turns s h

abbrev pub IsOver : Request → Service → Type 0
IsOver request s =
    (s.state ≡ stopped) × ((result : ShutdownResult) × (s.shutdown ≡ finished request result))

clear-ends :
    (options : ServiceOptions) (request : Request) (turns : List (StopTurn × Bool))
    (loop : StopLoop) (s : Service)
    → waits loop ≤ length turns
    → IsOver request (steps options (stop_events turns) (clear request loop s))
unfolding steps step on_stop clear
clear-ends options request turns (ended outcome) s enough =
    rw (steps-resting options turns (clear request (ended outcome) s) refl)
      (refl, (result_of request outcome, refl))
clear-ends options request [] (awaiting run) s enough = absurd (omega (arith, enough))
clear-ends options request (t ∷ turns) (awaiting run) s enough =
    clear-ends options request turns (after_turn run t.0 t.1) (clear request (awaiting run) s)
      (omega (arith, enough, waits-after_turn run t.0 t.1))

on_drained-clear :
    (options : ServiceOptions) (elapsed : ℕ) (request : Request) (loop : StopLoop) (s : Service)
    → (let next = clear request loop s in on_drained options elapsed next.activity next)
      ≡ clear request loop s
unfolding clear
on_drained-clear options elapsed request (ended outcome) s = refl
on_drained-clear options elapsed request (awaiting run) s = refl

-- The loop of a shutdown, with a wait for a drain before it or not.
clear_all-ends :
    (options : ServiceOptions) (request : Request) (elapsed : ℕ) (turns : List (StopTurn × Bool))
    (s : Service)
    → length s.resources ≤ length turns
    → IsOver request (steps options (stop_events turns) (clear_all options request elapsed s))
clear_all-ends options request elapsed turns s enough =
    let late = leb options.shutdown_timeout_ms elapsed in
    clear-ends options request turns (stop_next (stop_sequence s.resources) [] late) s (
      omega (
        arith,
        enough,
        waits-stop_next (stop_sequence s.resources) [] late,
        length-stop_sequence s.resources,
      ))

after_drain :
    (drains : Bool) (options : ServiceOptions) (request : Request) (first second : ℕ)
    (turns : List (StopTurn × Bool)) (s : Service)
    → length s.resources ≤ length turns
    → (let next =
          if drains
          then record s { activity = draining request }
          else clear_all options request first s in
        IsOver request
          (steps options (stop_events turns) (on_drained options second next.activity next)))
after_drain true options request first second turns s enough =
    clear_all-ends options request second turns (record s { activity = draining request }) enough
after_drain false options request first second turns s enough =
    rw
      (on_drained-clear options second request
        (stop_next (stop_sequence s.resources) [] (leb options.shutdown_timeout_ms first)) s)
      (clear_all-ends options request first turns s enough)

running-asked :
    (options : ServiceOptions) (request : Request) (elapsed : ℕ) (s : Service)
    → s.state ≡ running
    → s.shutdown ≡ not_asked
    → is_heard request.asker s.listening ≡ true
    → shutdown_by options request elapsed s ≡ shut_down options request elapsed running s
unfolding shutdown_by
running-asked options request elapsed s up fresh heard =
    ap (λ b. if b then ask options request elapsed s.shutdown s else s) heard
    ∙ (ap (λ x. ask options request elapsed x s) fresh
        ∙ ap (λ x. wait_for_startup options request elapsed x s) up)

-- A running service that is asked to shut down, with no shutdown before, and hears it, ends: when what follows is
-- the end of the drain delay and then the ends of at least as many stops as it has resources, in whatever way each
-- ends, and nothing else, then it has stopped and the shutdown has a result.
pub shutdown-ends :
    (options : ServiceOptions) (request : Request) (first second : ℕ)
    (turns : List (StopTurn × Bool)) (s : Service)
    → s.state ≡ running
    → s.shutdown ≡ not_asked
    → is_heard request.asker s.listening ≡ true
    → length s.resources ≤ length turns
    → IsOver request (steps options (asks request first ∷ drained second ∷ stop_events turns) s)
unfolding steps step shut_down
shutdown-ends options request first second turns s up fresh heard enough =
    subst (λ x. IsOver request (steps options (drained second ∷ stop_events turns) x))
      (sym (running-asked options request first s up fresh heard))
      (after_drain (ltb 0 (min options.drain_delay_ms options.shutdown_timeout_ms)) options request
        first second turns (record s { state = stopping; shutdown = under_way request }) enough)
