-- ===== src/Auth/RateLimit/Window.antt =====
-- Which checks a window lets through.
use first_principles.Base.Maps.{map_set, map_delete, lookup-map_set, lookup-map_delete}
use first_principles.Base.{
  ◌≡◌, refl, ap, ◌∙◌, ◌≢◌, inl, inr, ℕ, ◌+◌, ◌<◌, String, Bool, false, none, some, List, [], ◌∷◌,
  ltb, lookup, str_eq_iff, str_eq_refl, Option-cases, arith, All,
}
use first_principles.Auth.RateLimit.{
  AttemptCounter, Counters, live_counter, increment_counter, memory_attempt_store, Limits,
  LimiterOutcome, returned, store_failed, configuration_error, RateLimitDecision, check,
  record_failure, decide_counter,
}

-- What callers of the limiter do, each at a time: they check before a guess, record a failure after one, and
-- record a failure under another key. Between a check and its failure others may act.
pub data Event : Type 0 where
  checks fails : ℕ → Event
  elsewhere : String → ℕ → Event

abbrev pub may_proceed : LimiterOutcome RateLimitDecision → Bool
may_proceed (returned decision) = decision.allowed
may_proceed store_failed = false
may_proceed configuration_error = false

module _ (limits : Limits) (key : String) where
  -- The answers to the checks, in their order.
  unfoldable pub answers : List Event → Counters → List Bool
  answers [] m = []
  answers (checks t ∷ events) m =
      let (answer, m') = check limits (memory_attempt_store t t) t key m in
      may_proceed answer ∷ answers events m'
  answers (fails t ∷ events) m =
      answers events (record_failure limits (memory_attempt_store t t) t key m).1
  answers (elsewhere other t ∷ events) m =
      answers events (record_failure limits (memory_attempt_store t t) t other m).1

  -- A check is answered by how many failures were recorded before it.
  unfoldable pub by_failures : ℕ → List Event → List Bool
  by_failures n [] = []
  by_failures n (checks t ∷ events) = ltb n limits.max_attempts ∷ by_failures n events
  by_failures n (fails t ∷ events) = by_failures (n + 1) events
  by_failures n (elsewhere other t ∷ events) = by_failures n events

  -- Checks and failures come before the time, and what is recorded elsewhere is not under this key.
  abbrev pub IsBefore : ℕ → Event → Type 0
  IsBefore end (checks t) = t < end
  IsBefore end (fails t) = t < end
  IsBefore end (elsewhere other t) = other ≢ key

  lookup-elsewhere :
      (other : String) (t : ℕ) (m : Counters)
      → other ≢ key
      → lookup key (record_failure limits (memory_attempt_store t t) t other m).1 ≡ lookup key m
  unfolding record_failure memory_attempt_store increment_counter live_counter
  lookup-elsewhere other t m apart = elim (Option-cases (lookup other m)) [
    | inl gone ↦
        let fresh : AttemptCounter = record { count = 1; reset_at = t + limits.window_ms } in
        ground (arith, lookup-map_set m other key fresh, str_eq_iff other key)
    | inr (old, here) ↦
        let fresh : AttemptCounter = record { count = 1; reset_at = t + limits.window_ms } in
        let next : AttemptCounter = record { count = old.count + 1; reset_at = old.reset_at } in
        ground (
          arith,
          lookup-map_set m other key next,
          lookup-map_delete m other key,
          lookup-map_set (map_delete m other) other key fresh,
          str_eq_iff other key,
        )
  ]

  check-counted :
      (t n end : ℕ) (m : Counters)
      → lookup key m ≡ some (record { count = n; reset_at = end })
      → key ≢ ""
      → t < end
      → (may_proceed (check limits (memory_attempt_store t t) t key m).0
          ≡ ltb n limits.max_attempts)
        × ((check limits (memory_attempt_store t t) t key m).1 ≡ m)
  unfolding check memory_attempt_store live_counter decide_counter
  check-counted t n end m found named before = ground (arith, str_eq_iff key "")

  record_failure-counted :
      (t n end : ℕ) (m : Counters)
      → lookup key m ≡ some (record { count = n; reset_at = end })
      → key ≢ ""
      → t < end
      → lookup key (record_failure limits (memory_attempt_store t t) t key m).1
        ≡ some (record { count = n + 1; reset_at = end })
  unfolding record_failure memory_attempt_store increment_counter live_counter
  record_failure-counted t n end m found named before =
      let next : AttemptCounter = record { count = n + 1; reset_at = end } in
      ground (arith, str_eq_iff key "", lookup-map_set m key key next, str_eq_refl key)

  record_failure-opens :
      (t : ℕ) (m : Counters)
      → key ≢ ""
      → lookup key m ≡ none
      → (record_failure limits (memory_attempt_store t t) t key m).1
        ≡ map_set m key (record { count = 1; reset_at = t + limits.window_ms })
  unfolding record_failure memory_attempt_store increment_counter live_counter
  record_failure-opens t m named absent = ground (arith, str_eq_iff key "")

  answers-counted :
      (events : List Event) (m : Counters) (n end : ℕ)
      → lookup key m ≡ some (record { count = n; reset_at = end })
      → key ≢ ""
      → All (IsBefore end) events
      → answers events m ≡ by_failures n events
  unfolding answers by_failures
  answers-counted [] m n end found named before = refl
  answers-counted (checks t ∷ events) m n end found named before =
      let (proceeds, kept) = check-counted t n end m found named before.0 in
      let more = answers-counted events m n end found named before.1 in rw (kept, proceeds, more)
  answers-counted (fails t ∷ events) m n end found named before =
      let failed = (record_failure limits (memory_attempt_store t t) t key m).1 in
      let counted = record_failure-counted t n end m found named before.0 in
      answers-counted events failed (n + 1) end counted named before.1
  answers-counted (elsewhere other t ∷ events) m n end found named before =
      answers-counted events _ n end (lookup-elsewhere other t m before.0 ∙ found) named before.1

  -- With the store in memory, from the first failure that is recorded under a key without a counter until the window that it opens has
  -- ended, a check of the key is allowed exactly as long as fewer than `maxAttempts` failures were recorded
  -- before it, however checks and failures interleave and whatever fails under other keys; for a key that is
  -- not empty, with no success recorded. So checks that come before the failures of earlier guesses are recorded
  -- do not count these.
  pub answers-window :
      (start : ℕ) (events : List Event) (m : Counters)
      → key ≢ ""
      → lookup key m ≡ none
      → All (IsBefore (start + limits.window_ms)) events
      → answers (fails start ∷ events) m ≡ by_failures 0 (fails start ∷ events)
  unfolding answers by_failures
  answers-window start events m named absent before =
      let first : AttemptCounter = record { count = 1; reset_at = start + limits.window_ms } in
      let counted : lookup key (map_set m key first) ≡ some first =
        ground (arith, lookup-map_set m key key first, str_eq_refl key) in
      let failed = (record_failure limits (memory_attempt_store start start) start key m).1 in
      answers-counted events failed 1 (start + limits.window_ms)
        (ap (lookup key) (record_failure-opens start m named absent) ∙ counted) named before
