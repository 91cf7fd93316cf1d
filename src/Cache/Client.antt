-- ===== src/Cache/Client.antt =====
-- packages/cache-kit/src/client.ts: `wrap`, which lets the misses of one key share a call of the
-- fetcher. `flights` lists the promises of `runFetcherOnce` in the order of their creation, and a
-- promise is named by its place there. Each event runs without a pause.
mod Tests
pub mod Flights
pub mod Steps
pub mod Single
pub mod Stuck
use first_principles.Base.Maps.{map_set, map_delete}
use first_principles.Base.{
  ℕ, zero, suc, String, Bool, true, false, Option, none, some, List, [], ◌∷◌, ◌++◌, length, lookup,
}
use first_principles.Cache.Client.Flights.{get_at, put_at}

-- Where a call of `runFetcherOnce` is: it awaits the fetcher, or the backend, or it has ended.
pub data Stage {ℓ} (V : Type ℓ) : Type ℓ where
  fetching rejected : Stage V
  storing fulfilled : V → Stage V

pub record Flight {ℓ} (V : Type ℓ) : Type ℓ where
  pub key : String
  pub stage : Stage V

pub record Client {ℓ} (V : Type ℓ) : Type ℓ where
  pub in_flight : List (String × ℕ)
  pub flights : List (Flight V)

-- What the call of the fetcher itself does: it returns a promise, or it throws.
pub data Call : Type 0 where
  pends throws : Call

-- `misses` is a `wrap` that goes on after the backend had no value, or failed; the others continue a
-- `runFetcherOnce`. `stores p false` is an error of `backend.set` that is not swallowed.
pub data Event {ℓ} (V : Type ℓ) : Type ℓ where
  misses : String → Call → Event V
  fetches : ℕ → V → Event V
  fetch_fails : ℕ → Event V
  stores : ℕ → Bool → Event V

-- What `runFetcherOnce` has done to the map when it returns its promise: a fetcher that throws is
-- past the `finally` already.
abbrev cleared : Call → String → List (String × ℕ) → List (String × ℕ)
cleared pends key in_flight = in_flight
cleared throws key in_flight = map_delete in_flight key

module _ {ℓ} {V : Type ℓ} where
  abbrev first_stage : Call → Stage V
  first_stage pends = fetching
  first_stage throws = rejected

  unfoldable pub opened : String → Call → Client V → Client V
  opened key call c = record {
    in_flight = map_set (cleared call key c.in_flight) key (length c.flights);
    flights = c.flights ++ record { key = key; stage = first_stage call } ∷ [];
  }

  -- A first miss starts a call and registers its promise; a later one shares what is registered.
  unfoldable pub miss : String → Call → Client V → Client V
  miss key call c = elim (lookup key c.in_flight) [ some existing ↦ c | none ↦ opened key call c ]

  -- A flight goes on, or ends, and then the `finally` takes its key off the map.
  unfoldable pub go_on : ℕ → Flight V → Stage V → Client V → Client V
  go_on p flight stage c = record c {
    flights = put_at c.flights p (record flight { stage = stage });
  }

  unfoldable pub end : ℕ → Flight V → Stage V → Client V → Client V
  end p flight stage c = record {
    in_flight = map_delete c.in_flight flight.key;
    flights = put_at c.flights p (record flight { stage = stage });
  }

  abbrev ending : Bool → V → Stage V
  ending true v = fulfilled v
  ending false v = rejected

  -- An event that does not fit the stage of its flight does not happen.
  unfoldable pub proceed : Event V → ℕ → Flight V → Stage V → Client V → Client V
  proceed (fetches _ v) p flight fetching c = go_on p flight (storing v) c
  proceed (fetch_fails _) p flight fetching c = end p flight rejected c
  proceed (stores _ kept) p flight (storing v) c = end p flight (ending kept v) c
  proceed _ p flight stage c = c

  unfoldable pub proceed_at : Event V → ℕ → Client V → Client V
  proceed_at event p c = elim (get_at c.flights p) [
    | none ↦ c
    | some flight ↦ proceed event p flight flight.stage c
  ]

  unfoldable pub step : Event V → Client V → Client V
  step (misses key call) c = miss key call c
  step (fetches p v) c = proceed_at (fetches p v) p c
  step (fetch_fails p) c = proceed_at (fetch_fails p) p c
  step (stores p kept) c = proceed_at (stores p kept) p c

  unfoldable pub steps : List (Event V) → Client V → Client V
  steps [] c = c
  steps (event ∷ events) c = steps events (step event c)
