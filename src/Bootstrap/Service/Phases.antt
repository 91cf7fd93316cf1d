-- ===== src/Bootstrap/Service/Phases.antt =====
-- Each loop of a service keeps its calls in order.
use mathlib.Core.Path.{subst}
use mathlib.Core.List.{append_assoc, append-nil}
use first_principles.Base.{
  ◌≡◌, refl, sym, ap, ◌∙◌, inl, inr, ℕ, String, Bool, true, false, List, [], ◌∷◌, ◌++◌, map,
  if◌then◌else◌, min, ltb, leb, arith,
}
use first_principles.Bootstrap.Checks.{
  ServiceState, idle, starting, running, stopping, stopped, failed,
}
use first_principles.Bootstrap.Service.Stops.{
  Resource, StopTurn, StopRun, StopLoop, ended, awaiting, sort, stop_sequence, stop_next,
  after_turn, resolves, rejects, deadline,
}
use first_principles.Bootstrap.Service.{
  ServiceOptions, Activity, resting, at, undoing, draining, clearing, Shutdown, not_asked,
  awaits_startup, under_way, finished, Request, Call, start_call, stop_call, Service, start_next,
  undo, clear, clear_all, shut_down,
}
use first_principles.Bootstrap.Service.Calls.{starts_of, stops_of, Ordered, Kept, Fits, Fitting}

map-append {ℓ κ} :
    {A : Type ℓ} {B : Type κ} (f : A → B) (xs ys : List A) → map f (xs ++ ys) ≡ map f xs ++ map f ys
map-append f [] ys = refl
map-append f (x ∷ xs) ys = ap (λ l. f x ∷ l) (map-append f xs ys)

module _ (resources up : List Resource) (calls : List Call) where
  -- A loop of stops that is about to call the next one, or ends.
  abbrev pub Goes : StopLoop → Type 0
  Goes (awaiting run) = Ordered resources up (run.current ∷ run.rest) calls
  Goes (ended outcome) =
      (left : List Resource) × Ordered resources up left calls
      × (outcome.timed_out ≡ false → left ≡ [])

  pub stop_next-Goes :
      (list : List Resource) (broken : List String) (aborted : Bool)
      → Ordered resources up list calls
      → Goes (stop_next list broken aborted)
  unfolding stop_next
  stop_next-Goes [] broken aborted h = ([], h, λ e. refl)
  stop_next-Goes (r ∷ rest) broken true h = (r ∷ rest, h, λ e. absurd (ground (arith, e)))
  stop_next-Goes (r ∷ rest) broken false h = h

  pub after_turn-Goes :
      (run : StopRun) (turn : StopTurn) (aborted : Bool)
      → Ordered resources up run.rest calls
      → Goes (after_turn run turn aborted)
  unfolding after_turn
  after_turn-Goes run resolves aborted h = stop_next-Goes run.rest run.failed aborted h
  after_turn-Goes run rejects aborted h = stop_next-Goes run.rest _ aborted h
  after_turn-Goes run deadline aborted h = (run.rest, h, λ e. absurd (ground (arith, e)))

  stop_call-Ordered :
      (r : Resource) (rest : List Resource)
      → Ordered resources up (r ∷ rest) calls
      → Ordered resources up rest (calls ++ stop_call r.name ∷ [])
  stop_call-Ordered r rest h = record {
    attempted = h.attempted;
    later = h.later;
    gone = h.gone ++ r ∷ [];
    registered = h.registered;
    succeeded = h.succeeded;
    sequence = h.sequence ∙ sym (append_assoc h.gone (r ∷ []) rest);
    made =
        ap (λ l. l ++ stop_call r.name ∷ []) h.made
        ∙ (append_assoc (starts_of h.attempted) (stops_of h.gone) (stop_call r.name ∷ [])
            ∙ ap (λ l. starts_of h.attempted ++ l)
                (sym (map-append (λ r. stop_call r.name) h.gone (r ∷ []))));
  }

pub start_next-Fitting :
    (up rest : List Resource) (s : Service)
    → s.resources ≡ up ++ rest
    → s.calls ≡ starts_of up
    → s.state ≡ starting
    → Fitting up (start_next up rest s)
unfolding start_next
start_next-Fitting up [] s same made begun =
    let all = same ∙ append-nil up in (made ∙ ap starts_of (sym all), sym all)
start_next-Fitting up (r ∷ rest) s same made begun = (
  begun,
  same,
  ap (λ l. l ++ start_call r.name ∷ []) made
      ∙ sym (map-append (λ r. start_call r.name) up (r ∷ [])),
  refl,
)

pub undo-Fitting :
    (done up : List Resource) (loop : StopLoop) (s : Service)
    → s.state ≡ starting
    → Goes s.resources done s.calls loop
    → Fitting done (undo up loop s)
unfolding undo
undo-Fitting done up (ended outcome) s begun h = let (left, is, _) = h in (left, is)
undo-Fitting done up (awaiting run) s begun h =
    (begun, stop_call-Ordered s.resources done s.calls run.current run.rest h)

pub clear-Fitting :
    (done : List Resource) (request : Request) (loop : StopLoop) (s : Service)
    → s.state ≡ stopping
    → s.shutdown ≡ under_way request
    → done ≡ s.resources
    → Goes s.resources done s.calls loop
    → Fitting done (clear request loop s)
unfolding clear
clear-Fitting done request (ended outcome) s begun asked whole h =
    let (left, is, all) = h in (left, is, λ e. all (ground (arith, e)), inr whole)
clear-Fitting done request (awaiting run) s begun asked whole h =
    (begun, asked, stop_call-Ordered s.resources done s.calls run.current run.rest h, whole)

pub started-Ordered :
    (resources : List Resource) (calls : List Call)
    → calls ≡ starts_of resources
    → Ordered resources resources (stop_sequence resources) calls
started-Ordered resources calls made = record {
  attempted = resources;
  later = [];
  gone = [];
  registered = sym (append-nil resources);
  succeeded = inl refl;
  sequence = refl;
  made = made ∙ sym (append-nil (starts_of resources));
}

pub undone-Ordered :
    (resources up : List Resource) (r : Resource) (rest : List Resource) (calls : List Call)
    → resources ≡ up ++ r ∷ rest
    → calls ≡ starts_of (up ++ r ∷ [])
    → Ordered resources up (stop_sequence up) calls
undone-Ordered resources up r rest calls same made = record {
  attempted = up ++ r ∷ [];
  later = rest;
  gone = [];
  registered = same ∙ sym (append_assoc up (r ∷ []) rest);
  succeeded = inr (r, refl);
  sequence = refl;
  made = made ∙ sym (append-nil (starts_of (up ++ r ∷ [])));
}

pub never-Ordered :
    (resources : List Resource) (calls : List Call) → calls ≡ [] → Ordered resources [] [] calls
unfolding stop_sequence sort
never-Ordered resources calls made = record {
  attempted = [];
  later = resources;
  gone = [];
  registered = refl;
  succeeded = inl refl;
  sequence = refl;
  made = made;
}

-- A shutdown that has not begun.
abbrev pub IsOpen : Shutdown → Type 0
IsOpen not_asked = Unit
IsOpen (awaits_startup request) = Unit
IsOpen _ = ⊥

Kept-finished :
    (shutdown : Shutdown) (left : List Resource) → Kept shutdown left → IsOpen shutdown → ⊥
Kept-finished not_asked left h pends = h
Kept-finished (awaits_startup request) left h pends = h
Kept-finished (under_way request) left h pends = pends
Kept-finished (finished request result) left h pends = pends

-- Between the loops nothing is under way.
abbrev pub IsSettled : ServiceState → Type 0
IsSettled starting = ⊥
IsSettled _ = Unit

module _ (shutdown : Shutdown) (resources : List Resource) (calls : List Call)
    (done : List Resource) where
  pub at_rest :
      (a : Activity) (state : ServiceState)
      → Fits a state shutdown resources calls done
      → IsSettled state
      → IsOpen shutdown
      → Fits resting state shutdown resources calls done
  at_rest resting state h settled pends = h
  at_rest (at up r rest) state h settled pends = absurd (subst (λ x. IsSettled x) h.0 settled)
  at_rest (undoing up run) state h settled pends = absurd (subst (λ x. IsSettled x) h.0 settled)
  at_rest (draining request) state h settled pends = absurd (subst (λ x. IsOpen x) h.1 pends)
  at_rest (clearing request run) state h settled pends = absurd (subst (λ x. IsOpen x) h.1 pends)

  not_yet_stopped : Fits resting stopped shutdown resources calls done → IsOpen shutdown → ⊥
  not_yet_stopped h pends = let (left, _, kept, _) = h in Kept-finished shutdown left kept pends

pub clear_all-Fitting :
    (options : ServiceOptions) (request : Request) (elapsed : ℕ) (done : List Resource)
    (s : Service)
    → s.state ≡ stopping
    → s.shutdown ≡ under_way request
    → s.calls ≡ starts_of s.resources
    → done ≡ s.resources
    → Fitting done (clear_all options request elapsed s)
clear_all-Fitting options request elapsed done s begun asked made whole =
    let late = leb options.shutdown_timeout_ms elapsed in
    clear-Fitting done request (stop_next (stop_sequence s.resources) [] late) s begun asked whole (
      stop_next-Goes s.resources done s.calls (stop_sequence s.resources) [] late (
        subst (λ up. Ordered s.resources up (stop_sequence s.resources) s.calls) (sym whole)
          (started-Ordered s.resources s.calls made)))

pub Fitting-if :
    (b : Bool) (done : List Resource) (x y : Service)
    → Fitting done x
    → Fitting done y
    → Fitting done (if b then x else y)
Fitting-if true done x y p q = p
Fitting-if false done x y p q = q

pub shut_down-Fitting :
    (options : ServiceOptions) (request : Request) (elapsed : ℕ) (state : ServiceState)
    (done : List Resource) (s : Service)
    → Fits resting state s.shutdown s.resources s.calls done
    → IsOpen s.shutdown
    → Fitting done (shut_down options request elapsed state s)
unfolding shut_down
shut_down-Fitting options request elapsed running done s h pends =
    let stops = record s { state = stopping; shutdown = under_way request } in
    Fitting-if (ltb 0 (min options.drain_delay_ms options.shutdown_timeout_ms)) done
      (record stops { activity = draining request }) (clear_all options request elapsed stops)
      (refl, refl, h.0, h.1)
      (clear_all-Fitting options request elapsed done stops refl refl h.0 h.1)
shut_down-Fitting options request elapsed idle done s h pends = (
  [],
  subst (λ up. Ordered s.resources up [] s.calls) (sym h.1) (never-Ordered s.resources s.calls h.0),
  λ e. refl,
  inl h.0,
)
shut_down-Fitting options request elapsed failed done s h pends = h
shut_down-Fitting options request elapsed starting done s h pends = absurd h
shut_down-Fitting options request elapsed stopping done s h pends = absurd h
shut_down-Fitting options request elapsed stopped done s h pends =
    absurd (not_yet_stopped s.shutdown s.resources s.calls done h pends)
