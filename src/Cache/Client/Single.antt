-- ===== src/Cache/Client/Single.antt =====
-- At most one call of the fetcher at a time for a key.
use first_principles.Base.Maps.{lookup-map_set, lookup-map_delete}
use first_principles.Base.{
  ◌≡◌, inl, inr, ℕ, String, Bool, true, false, ◌&&◌, Option, none, some, List, [], ◌∷◌, length,
  lookup, All, str_eq, str_eq_iff, arith, Option-cases,
}
use first_principles.Cache.Client.Flights.{get_at, get_at-append, get_at-put_at, get_at-none}
use first_principles.Cache.Client.{
  Stage, fetching, storing, Flight, Client, pends, throws, Event, misses, fetches, fetch_fails,
  stores, opened, miss, go_on, end, proceed_at, step, steps,
}
use first_principles.Cache.Client.Steps.{is_active, miss-taken, miss-free, proceed_at-keeps}

module _ {ℓ} {V : Type ℓ} where
  abbrev runs : Option (Flight V) → String → Bool
  runs none key = false
  runs (some flight) key = str_eq flight.key key && is_active flight.stage

  -- A flight that has not ended is the one that its key is registered with, and what a key is
  -- registered with is a flight for this key that has not ended.
  pub record IsTracked (c : Client V) : Type ℓ where
    pub registered :
        (i : ℕ) (f : Flight V)
        → get_at c.flights i ≡ some f
        → is_active f.stage ≡ true
        → lookup f.key c.in_flight ≡ some i
    pub running :
        (key : String) (i : ℕ)
        → lookup key c.in_flight ≡ some i
        → runs (get_at c.flights i) key ≡ true

  -- The fetcher does not throw before it returns a promise.
  abbrev pub is_async : Event V → Bool
  is_async (misses key throws) = false
  is_async _ = true

  opened-IsTracked :
      (key : String) (c : Client V)
      → lookup key c.in_flight ≡ none
      → IsTracked c
      → IsTracked (opened key pends c)
  unfolding opened
  opened-IsTracked key c free h = record {
    registered = λ i f at active. ground (
      arith,
      h.registered i f,
      get_at-append c.flights (record { key = key; stage = fetching }) i,
      lookup-map_set c.in_flight key f.key (length c.flights),
      str_eq_iff key f.key,
    );
    running = λ k i found. ground (
      arith,
      h.running k i,
      get_at-append c.flights (record { key = key; stage = fetching }) i,
      lookup-map_set c.in_flight key k (length c.flights),
      str_eq_iff key k,
      get_at-none c.flights,
    );
  }

  miss-IsTracked : (key : String) (c : Client V) → IsTracked c → IsTracked (miss key pends c)
  miss-IsTracked key c h = elim (Option-cases (lookup key c.in_flight)) [
    | inr (existing, found) ↦ rw (miss-taken key pends c existing found) h
    | inl free ↦ rw (miss-free key pends c free) (opened-IsTracked key c free h)
  ]

  go_on-IsTracked :
      (p : ℕ) (f : Flight V) (v : V) (c : Client V)
      → get_at c.flights p ≡ some f
      → is_active f.stage ≡ true
      → IsTracked c
      → IsTracked (go_on p f (storing v) c)
  unfolding go_on
  go_on-IsTracked p f v c here active h =
      let next : Flight V = record f { stage = storing v } in
      record {
        registered = λ i g at on. ground (
          arith,
          h.registered i g,
          h.registered p f here active,
          get_at-put_at c.flights p i f next here,
        );
        running = λ k i found.
            ground (arith, h.running k i found, get_at-put_at c.flights p i f next here);
      }

  end-IsTracked :
      (p : ℕ) (f : Flight V) (last : Stage V) (c : Client V)
      → get_at c.flights p ≡ some f
      → is_active f.stage ≡ true
      → is_active last ≡ false
      → IsTracked c
      → IsTracked (end p f last c)
  unfolding end
  end-IsTracked p f last c here active ended h =
      let next : Flight V = record f { stage = last } in
      record {
        registered = λ i g at on. ground (
          arith,
          h.registered i g,
          h.registered p f here active,
          get_at-put_at c.flights p i f next here,
          lookup-map_delete c.in_flight f.key g.key,
          h.running g.key i,
          str_eq_iff f.key g.key,
        );
        running = λ k i found. ground (
          arith,
          h.running k i,
          get_at-put_at c.flights p i f next here,
          lookup-map_delete c.in_flight f.key k,
          h.registered p f here active,
        );
      }

  proceed_at-IsTracked :
      (event : Event V) (p : ℕ) (c : Client V) → IsTracked c → IsTracked (proceed_at event p c)
  proceed_at-IsTracked = proceed_at-keeps IsTracked go_on-IsTracked end-IsTracked

  step-IsTracked :
      (event : Event V) (c : Client V)
      → is_async event ≡ true
      → IsTracked c
      → IsTracked (step event c)
  unfolding step
  step-IsTracked (misses key pends) c async h = miss-IsTracked key c h
  step-IsTracked (misses key throws) c async h = absurd (ground arith)
  step-IsTracked (fetches p v) c async h = proceed_at-IsTracked (fetches p v) p c h
  step-IsTracked (fetch_fails p) c async h = proceed_at-IsTracked (fetch_fails p) p c h
  step-IsTracked (stores p kept) c async h = proceed_at-IsTracked (stores p kept) p c h

  pub steps-IsTracked :
      (events : List (Event V)) (c : Client V)
      → All (λ event. is_async event ≡ true) events
      → IsTracked c
      → IsTracked (steps events c)
  unfolding steps
  steps-IsTracked [] c async h = h
  steps-IsTracked (event ∷ events) c async h =
      steps-IsTracked events (step event c) async.1 (step-IsTracked event c async.0 h)

  abbrev pub no_flights : Client V
  no_flights = record { in_flight = []; flights = [] }

  pub no_flights-IsTracked : IsTracked no_flights
  unfolding get_at
  no_flights-IsTracked = record {
    registered = λ i f at active. absurd (ground arith);
    running = λ key i found. absurd (ground arith);
  }

  -- As long as no fetcher throws before it returns its promise, no two calls for one key run at once:
  -- two that have not ended are one and the same.
  pub single_flight :
      (events : List (Event V)) (i j : ℕ) (f g : Flight V)
      → All (λ event. is_async event ≡ true) events
      → get_at (steps events no_flights).flights i ≡ some f
      → get_at (steps events no_flights).flights j ≡ some g
      → is_active f.stage ≡ true
      → is_active g.stage ≡ true
      → f.key ≡ g.key
      → i ≡ j
  single_flight events i j f g async at at' active active' same =
      let h = steps-IsTracked events no_flights async no_flights-IsTracked in
      ground (arith, h.registered i f at active, h.registered j g at' active')

  -- As long as no fetcher throws before it returns its promise, a miss that shares a promise shares that
  -- of a call for its key that has not ended.
  pub shared_runs :
      (events : List (Event V)) (key : String) (i : ℕ)
      → All (λ event. is_async event ≡ true) events
      → lookup key (steps events no_flights).in_flight ≡ some i
      → (f : Flight V) × (get_at (steps events no_flights).flights i ≡ some f)
        × (f.key ≡ key)
        × (is_active f.stage ≡ true)
  shared_runs events key i async found =
      let h = steps-IsTracked events no_flights async no_flights-IsTracked in
      let running = h.running key i found in
      elim (Option-cases (get_at (steps events no_flights).flights i)) [
        | inl gone ↦ absurd (ground arith)
        | inr (f, here) ↦ (f, here, ground (arith, str_eq_iff f.key key), ground arith)
      ]
