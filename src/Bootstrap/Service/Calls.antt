-- ===== src/Bootstrap/Service/Calls.antt =====
-- The calls that a service makes on its resources, over any run.
use first_principles.Base.{◌≡◌, ◌⊎◌, true, List, [], ◌∷◌, ◌++◌, map}
use first_principles.Bootstrap.Checks.{
  ServiceState, idle, starting, running, stopping, stopped, failed,
}
use first_principles.Bootstrap.Service.Stops.{Resource, stop_sequence}
use first_principles.Bootstrap.Service.{
  ServiceOptions, Activity, resting, at, undoing, draining, clearing, Shutdown, under_way, finished,
  Call, start_call, stop_call, Service, Event, start_ends, step,
}

abbrev pub starts_of : List Resource → List Call
starts_of = map (λ r. start_call r.name)

abbrev pub stops_of : List Resource → List Call
stops_of = map (λ r. stop_call r.name)

-- The calls of a service: resources are started in the order of their registration, and then those that
-- were started without an error, all that were tried but the last at most, are stopped in their stop order,
-- with `left` still to come.
pub record Ordered (resources up left : List Resource) (calls : List Call) : Type 0 where
  pub attempted : List Resource
  pub later : List Resource
  pub gone : List Resource
  pub registered : resources ≡ attempted ++ later
  pub succeeded : (attempted ≡ up) ⊎ ((r : Resource) × (attempted ≡ up ++ r ∷ []))
  pub sequence : stop_sequence up ≡ gone ++ left
  pub made : calls ≡ starts_of attempted ++ stops_of gone

-- A shutdown that ended well has left nothing running.
abbrev pub Kept : Shutdown → List Resource → Type 0
Kept (finished request result) left = result.ok ≡ true → left ≡ []
Kept _ left = ⊥

-- The resources whose start has succeeded, from those before: the one that is awaited, when its start ends well.
abbrev pub with_started : Event → Activity → List Resource → List Resource
with_started (start_ends true) (at up r rest) done = done ++ r ∷ []
with_started _ _ done = done

unfoldable pub started : ServiceOptions → List Event → List Resource → Service → List Resource
started options [] done s = done
started options (event ∷ events) done s =
    started options events (with_started event s.activity done) (step options event s)

-- What the calls are in each phase, where the starts of `done` have succeeded.
abbrev pub Fits :
    Activity → ServiceState → Shutdown → List Resource → List Call → List Resource → Type 0
Fits resting idle shutdown resources calls done = (calls ≡ []) × (done ≡ [])
Fits resting running shutdown resources calls done =
    (calls ≡ starts_of resources) × (done ≡ resources)
Fits resting starting shutdown resources calls done = ⊥
Fits resting stopping shutdown resources calls done = ⊥
Fits resting stopped shutdown resources calls done =
    (left : List Resource) × Ordered resources done left calls
    × Kept shutdown left
    × ((calls ≡ []) ⊎ (done ≡ resources))
Fits resting failed shutdown resources calls done =
    (left : List Resource) × Ordered resources done left calls
Fits (at up r rest) state shutdown resources calls done =
    (state ≡ starting)
    × (resources ≡ up ++ r ∷ rest)
    × (calls ≡ starts_of (up ++ r ∷ []))
    × (done ≡ up)
Fits (undoing up run) state shutdown resources calls done =
    (state ≡ starting) × Ordered resources done run.rest calls
Fits (draining request) state shutdown resources calls done =
    (state ≡ stopping)
    × (shutdown ≡ under_way request)
    × (calls ≡ starts_of resources)
    × (done ≡ resources)
Fits (clearing request run) state shutdown resources calls done =
    (state ≡ stopping)
    × (shutdown ≡ under_way request)
    × Ordered resources done run.rest calls
    × (done ≡ resources)

abbrev pub Fitting : List Resource → Service → Type 0
Fitting done s = Fits s.activity s.state s.shutdown s.resources s.calls done
