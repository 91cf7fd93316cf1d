-- ===== src/Cache/Client/Tests.antt =====
-- Two callers of one key, and a fetcher that throws at once.
use first_principles.Base.Maps.{map_set, map_delete}
use first_principles.Base.{◌≡◌, refl, ℕ, true, some, List, [], ◌∷◌, length, str_eq}
use first_principles.Cache.Client.Flights.{get_at, put_at}
use first_principles.Cache.Client.{
  fetching, fulfilled, Flight, Client, pends, throws, Event, misses, fetches, stores, opened, miss,
  go_on, end, proceed, proceed_at, step, steps,
}
use first_principles.Cache.Client.Steps.{is_active}
use first_principles.Cache.Client.Single.{no_flights, single_flight, shared_runs}
use first_principles.Cache.Client.Stuck.{IsStuck, misses-IsStuck}

program : Unit {0}
unfolding map_set map_delete get_at put_at opened miss go_on end proceed proceed_at step steps
    str_eq
program = tt

abbrev start : Client ℕ
start = no_flights

-- The second caller shares the first one's call, and the third comes after it has ended.
abbrev calls : List (Event ℕ)
calls = misses "a" pends ∷ misses "a" pends ∷ fetches 0 7 ∷ stores 0 true ∷ misses "a" pends ∷ []

calls_run : steps calls start ≡ record {
  in_flight = ("a", 1) ∷ [];
  flights = record { key = "a"; stage = fulfilled 7 } ∷ record { key = "a"; stage = fetching } ∷ [];
}
unfolding program
calls_run = refl

single_flight_example : ◌≡◌ {A = ℕ} 1 1
unfolding program
single_flight_example =
    single_flight calls 1 1 (record { key = "a"; stage = fetching })
      (record { key = "a"; stage = fetching }) (refl, (refl, (refl, (refl, (refl, tt))))) refl refl
      refl refl refl

shared_runs_example :
    (f : Flight ℕ) × (get_at (steps calls start).flights 1 ≡ some f)
    × (f.key ≡ "a")
    × (is_active f.stage ≡ true)
unfolding program
shared_runs_example = shared_runs calls "a" 1 (refl, (refl, (refl, (refl, (refl, tt))))) refl

misses-IsStuck_example :
    IsStuck "b"
      (length (steps calls start).flights)
      (steps (misses "b" throws ∷ misses "b" pends ∷ []) (steps calls start))
unfolding program
misses-IsStuck_example =
    misses-IsStuck "b" calls (misses "b" pends ∷ []) (refl, (refl, (refl, (refl, (refl, tt))))) refl
