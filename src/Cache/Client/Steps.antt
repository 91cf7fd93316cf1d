-- ===== src/Cache/Client/Steps.antt =====
-- How an event changes the client, by the stage of its flight.
use first_principles.Base.{
  ◌≡◌, refl, ap, inl, inr, ℕ, String, Bool, true, false, none, some, lookup, arith, Option-cases,
}
use first_principles.Cache.Client.Flights.{get_at}
use first_principles.Cache.Client.{
  Stage, fetching, rejected, storing, fulfilled, Flight, Client, Call, Event, misses, fetches,
  fetch_fails, stores, opened, miss, go_on, end, proceed, proceed_at,
}

module _ {ℓ} {V : Type ℓ} where
  abbrev pub is_active : Stage V → Bool
  is_active fetching = true
  is_active (storing v) = true
  is_active _ = false

  pub miss-taken :
      (key : String) (call : Call) (c : Client V) (p : ℕ)
      → lookup key c.in_flight ≡ some p
      → miss key call c ≡ c
  unfolding miss
  miss-taken key call c p found = ground arith

  pub miss-free :
      (key : String) (call : Call) (c : Client V)
      → lookup key c.in_flight ≡ none
      → miss key call c ≡ opened key call c
  unfolding miss
  miss-free key call c free = ground arith

  proceed_at-none :
      (event : Event V) (p : ℕ) (c : Client V)
      → get_at c.flights p ≡ none
      → proceed_at event p c ≡ c
  unfolding proceed_at
  proceed_at-none event p c gone = ground arith

  proceed_at-some :
      (event : Event V) (p : ℕ) (flight : Flight V) (c : Client V)
      → get_at c.flights p ≡ some flight
      → proceed_at event p c ≡ proceed event p flight flight.stage c
  unfolding proceed_at
  proceed_at-some event p flight c here =
      ap (λ o. elim o [ none ↦ c | some g ↦ proceed event p g g.stage c ]) here

  -- What holds when a flight goes on and when it ends holds after any event of a flight.
  module _ {κ} (P : Client V → Type κ)
      (on_go : (p : ℕ) (f : Flight V) (v : V) (c : Client V)
        → get_at c.flights p ≡ some f
        → is_active f.stage ≡ true
        → P c
        → P (go_on p f (storing v) c))
      (on_end : (p : ℕ) (f : Flight V) (last : Stage V) (c : Client V)
        → get_at c.flights p ≡ some f
        → is_active f.stage ≡ true
        → is_active last ≡ false
        → P c
        → P (end p f last c)) where
    proceed-keeps :
        (event : Event V) (p : ℕ) (key : String) (stage : Stage V) (c : Client V)
        → get_at c.flights p ≡ some (record { key = key; stage = stage })
        → P c
        → P (proceed event p (record { key = key; stage = stage }) stage c)
    unfolding proceed
    proceed-keeps (misses k call) p key stage c here h = h
    proceed-keeps (fetches q v) p key fetching c here h = on_go p _ v c here refl h
    proceed-keeps (fetches q v) p key rejected c here h = h
    proceed-keeps (fetches q v) p key (storing w) c here h = h
    proceed-keeps (fetches q v) p key (fulfilled w) c here h = h
    proceed-keeps (fetch_fails q) p key fetching c here h = on_end p _ rejected c here refl refl h
    proceed-keeps (fetch_fails q) p key rejected c here h = h
    proceed-keeps (fetch_fails q) p key (storing w) c here h = h
    proceed-keeps (fetch_fails q) p key (fulfilled w) c here h = h
    proceed-keeps (stores q true) p key (storing w) c here h =
        on_end p _ (fulfilled w) c here refl refl h
    proceed-keeps (stores q false) p key (storing w) c here h =
        on_end p _ rejected c here refl refl h
    proceed-keeps (stores q kept) p key fetching c here h = h
    proceed-keeps (stores q kept) p key rejected c here h = h
    proceed-keeps (stores q kept) p key (fulfilled w) c here h = h

    pub proceed_at-keeps : (event : Event V) (p : ℕ) (c : Client V) → P c → P (proceed_at event p c)
    proceed_at-keeps event p c h = elim (Option-cases (get_at c.flights p)) [
      | inl gone ↦ rw (proceed_at-none event p c gone) h
      | inr (flight, here) ↦
          rw (proceed_at-some event p flight c here)
            (proceed-keeps event p flight.key flight.stage c here h)
    ]
