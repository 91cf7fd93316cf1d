-- ===== src/Cache/Client/Stuck.antt =====
-- What a fetcher that throws at once, instead of returning a promise, leaves behind.
use first_principles.Base.Maps.{map_delete, lookup-map_set, lookup-map_delete}
use first_principles.Base.{
  ◌≡◌, ap, inl, inr, ℕ, String, true, false, none, some, List, [], ◌∷◌, length, lookup, str_eq,
  str_eq_iff, str_eq_refl, arith, All, Option-cases,
}
use first_principles.Cache.Client.Flights.{get_at, get_at-append, get_at-put_at, get_at-none}
use first_principles.Cache.Client.{
  Stage, fetching, rejected, storing, Flight, Client, Call, pends, throws, Event, misses, fetches,
  fetch_fails, stores, opened, miss, go_on, end, proceed_at, step, steps,
}
use first_principles.Cache.Client.Steps.{is_active, miss-taken, miss-free, proceed_at-keeps}
use first_principles.Cache.Client.Single.{
  is_async, no_flights, steps-IsTracked, no_flights-IsTracked, IsTracked,
}

module _ {ℓ} {V : Type ℓ} where
  -- The key is registered with a call for it that was rejected, and no call for it runs.
  pub record IsStuck (key : String) (p : ℕ) (c : Client V) : Type ℓ where
    pub registered : lookup key c.in_flight ≡ some p
    pub ended : get_at c.flights p ≡ some (record { key = key; stage = rejected })
    pub idle :
        (i : ℕ) (f : Flight V)
        → get_at c.flights i ≡ some f
        → f.key ≡ key
        → is_active f.stage ≡ false

  -- With another key nothing changes for this one.
  opened-IsStuck :
      (key other : String) (call : Call) (p : ℕ) (c : Client V)
      → str_eq other key ≡ false
      → IsStuck key p c
      → IsStuck key p (opened other call c)
  unfolding opened
  opened-IsStuck key other pends p c apart h =
      let new : Flight V = record { key = other; stage = fetching } in
      record {
        registered =
            ground (arith, h.registered, lookup-map_set c.in_flight other key (length c.flights));
        ended = ground (arith, h.ended, get_at-append c.flights new p, get_at-none c.flights);
        idle = λ i f at same.
            ground (arith, h.idle i f, get_at-append c.flights new i, str_eq_iff other key);
      }
  opened-IsStuck key other throws p c apart h =
      let new : Flight V = record { key = other; stage = rejected } in
      record {
        registered = ground (
          arith,
          h.registered,
          lookup-map_set (map_delete c.in_flight other) other key (length c.flights),
          lookup-map_delete c.in_flight other key,
        );
        ended = ground (arith, h.ended, get_at-append c.flights new p, get_at-none c.flights);
        idle = λ i f at same. ground (arith, h.idle i f, get_at-append c.flights new i);
      }

  miss-IsStuck :
      (key other : String) (call : Call) (p : ℕ) (c : Client V)
      → IsStuck key p c
      → IsStuck key p (miss other call c)
  miss-IsStuck key other call p c h = elim (Option-cases (lookup other c.in_flight)) [
    | inr (q, found) ↦ rw (miss-taken other call c q found) h
    | inl free ↦
        rw (miss-free other call c free)
          (opened-IsStuck key other call p c (ground (arith, h.registered, str_eq_iff other key)) h)
  ]

  go_on-IsStuck :
      (key : String) (p q : ℕ) (f : Flight V) (v : V) (c : Client V)
      → get_at c.flights q ≡ some f
      → is_active f.stage ≡ true
      → IsStuck key p c
      → IsStuck key p (go_on q f (storing v) c)
  unfolding go_on
  go_on-IsStuck key p q f v c here active h =
      let next : Flight V = record f { stage = storing v } in
      record {
        registered = h.registered;
        ended = ground (arith, h.ended, get_at-put_at c.flights q p f next here);
        idle = λ i g at same.
            ground (arith, h.idle i g, h.idle q f here, get_at-put_at c.flights q i f next here);
      }

  end-IsStuck :
      (key : String) (p q : ℕ) (f : Flight V) (last : Stage V) (c : Client V)
      → get_at c.flights q ≡ some f
      → is_active f.stage ≡ true
      → is_active last ≡ false
      → IsStuck key p c
      → IsStuck key p (end q f last c)
  unfolding end
  end-IsStuck key p q f last c here active ended h =
      let next : Flight V = record f { stage = last } in
      record {
        registered = ground (
          arith,
          h.registered,
          h.idle q f here,
          lookup-map_delete c.in_flight f.key key,
          str_eq_iff f.key key,
        );
        ended = ground (arith, h.ended, get_at-put_at c.flights q p f next here);
        idle = λ i g at same. ground (arith, h.idle i g, get_at-put_at c.flights q i f next here);
      }

  proceed_at-IsStuck :
      (key : String) (p : ℕ) (event : Event V) (q : ℕ) (c : Client V)
      → IsStuck key p c
      → IsStuck key p (proceed_at event q c)
  proceed_at-IsStuck key p =
      proceed_at-keeps (IsStuck key p) (λ q f v c. go_on-IsStuck key p q f v c)
        (λ q f last c. end-IsStuck key p q f last c)

  step-IsStuck :
      (key : String) (p : ℕ) (event : Event V) (c : Client V)
      → IsStuck key p c
      → IsStuck key p (step event c)
  unfolding step
  step-IsStuck key p (misses other call) c h = miss-IsStuck key other call p c h
  step-IsStuck key p (fetches q v) c h = proceed_at-IsStuck key p (fetches q v) q c h
  step-IsStuck key p (fetch_fails q) c h = proceed_at-IsStuck key p (fetch_fails q) q c h
  step-IsStuck key p (stores q kept) c h = proceed_at-IsStuck key p (stores q kept) q c h

  steps-IsStuck :
      (key : String) (p : ℕ) (events : List (Event V)) (c : Client V)
      → IsStuck key p c
      → IsStuck key p (steps events c)
  unfolding steps
  steps-IsStuck key p [] c h = h
  steps-IsStuck key p (event ∷ events) c h =
      steps-IsStuck key p events (step event c) (step-IsStuck key p event c h)

  thrown-IsStuck :
      (key : String) (c : Client V)
      → IsTracked c
      → lookup key c.in_flight ≡ none
      → IsStuck key (length c.flights) (opened key throws c)
  unfolding opened
  thrown-IsStuck key c h free =
      let new : Flight V = record { key = key; stage = rejected } in
      record {
        registered = ground (
          arith,
          lookup-map_set (map_delete c.in_flight key) key key (length c.flights),
          str_eq_refl key,
        );
        ended = ground (arith, get_at-append c.flights new (length c.flights));
        idle = λ i f at same. ground (
          arith,
          h.registered i f,
          get_at-append c.flights new i,
          ap (λ k. lookup k c.in_flight) same,
        );
      }

  -- After a fetcher that threw before it returned a promise, on a miss of a key that nothing was
  -- registered for, the key stays registered with that rejected promise whatever happens later, and no
  -- call of a fetcher for this key ever runs: each later miss gets the old error. Before it no fetcher
  -- is taken to have thrown in this way.
  pub misses-IsStuck :
      (key : String) (before later : List (Event V))
      → All (λ event. is_async event ≡ true) before
      → lookup key (steps before no_flights).in_flight ≡ none
      → IsStuck key
          (length (steps before no_flights).flights)
          (steps (misses key throws ∷ later) (steps before no_flights))
  unfolding steps step
  misses-IsStuck key before later async free =
      let c = steps before no_flights in
      let h = steps-IsTracked before no_flights async no_flights-IsTracked in
      steps-IsStuck key (length c.flights) later (miss key throws c)
        (rw (miss-free key throws c free) (thrown-IsStuck key c h free))
