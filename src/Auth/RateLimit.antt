-- ===== src/Auth/RateLimit.antt =====
-- packages/auth-utils/src/rate-limit.ts and the attempt store of stores.ts. A limiter works with any
-- store that has the three operations; `none` is a store that failed. A clock reading is an argument.
mod Tests
pub mod Window
use first_principles.Base.{
  ℕ, ◌+◌, ◌-◌, ◌*◌, String, Bool, true, false, ◌||◌, Option, none, some, List, if◌then◌else◌, leb,
  ltb, lookup, str_eq,
}
use first_principles.Base.Maps.{map_set, map_delete}

pub record AttemptCounter : Type 0 where
  pub count : ℕ
  pub reset_at : ℕ

pub record AttemptStore (S : Type 0) : Type 0 where
  pub increment : String → ℕ → S → Option AttemptCounter × S
  pub get : String → S → Option (Option AttemptCounter) × S
  pub reset : String → S → Option (Unit {0}) × S

-- `createMemoryAttemptStore`
abbrev pub Counters : Type 0
Counters = List (String × AttemptCounter)

unfoldable pub live_counter : ℕ → String → Counters → Option AttemptCounter × Counters
live_counter now key m = elim (lookup key m) [
  | none ↦ (none, m)
  | some counter ↦ if leb counter.reset_at now then (none, map_delete m key) else (some counter, m)
]

-- `later` is the clock at its second reading, for the end of a new window.
abbrev next_counter : ℕ → ℕ → Option AttemptCounter → AttemptCounter
next_counter later window_ms none = record { count = 1; reset_at = later + window_ms }
next_counter later window_ms (some existing) = record {
  count = existing.count + 1;
  reset_at = existing.reset_at;
}

unfoldable pub increment_counter : ℕ → ℕ → String → ℕ → Counters → AttemptCounter × Counters
increment_counter now later key window_ms m =
    let (existing, m') = live_counter now key m in
    let next = next_counter later window_ms existing in (next, map_set m' key next)

unfoldable pub memory_attempt_store : ℕ → ℕ → AttemptStore Counters
memory_attempt_store now later = record {
  increment = λ key window_ms m.
      (let (next, m') = increment_counter now later key window_ms m in (some next, m'));
  get = λ key m. (let (found, m') = live_counter now key m in (some found, m'));
  reset = λ key m. (some tt, map_delete m key);
}

pub data OnStoreError : Type 0 where
  deny allow : OnStoreError

pub record RateLimitDecision : Type 0 where
  pub allowed : Bool
  pub count : ℕ
  pub remaining : ℕ
  pub reset_at : ℕ

pub record Limits : Type 0 where
  pub max_attempts : ℕ
  pub window_ms : ℕ
  pub on_store_error : OnStoreError

-- `createLoginRateLimiter`; `none` is the AuthConfigurationError.
unfoldable pub configure_limits : ℕ → ℕ → Option OnStoreError → Option Limits
configure_limits max_attempts window_seconds on_store_error =
    if leb max_attempts 0 || leb window_seconds 0
    then none
    else some (record {
      max_attempts = max_attempts;
      window_ms = window_seconds * 1000;
      on_store_error = elim on_store_error [ none ↦ deny | some chosen ↦ chosen ];
    })

pub data LimiterOutcome {ℓ} (A : Type ℓ) : Type ℓ where
  returned : A → LimiterOutcome A
  store_failed configuration_error : LimiterOutcome A

module _ {S : Type 0} (limits : Limits) (store : AttemptStore S) (now : ℕ) where
  unfoldable pub decide_counter : AttemptCounter → RateLimitDecision
  decide_counter counter = record {
    allowed = ltb counter.count limits.max_attempts;
    count = counter.count;
    remaining = limits.max_attempts - counter.count;
    reset_at = counter.reset_at;
  }

  -- No counter, or no knowledge of one.
  unfoldable pub unlimited : RateLimitDecision
  unlimited = record {
    allowed = true;
    count = 0;
    remaining = limits.max_attempts;
    reset_at = now + limits.window_ms;
  }

  abbrev on_failure : OnStoreError → LimiterOutcome RateLimitDecision
  on_failure deny = store_failed
  on_failure allow = returned unlimited

  abbrev conclude_check : Option (Option AttemptCounter) → LimiterOutcome RateLimitDecision
  conclude_check none = on_failure limits.on_store_error
  conclude_check (some none) = returned unlimited
  conclude_check (some (some counter)) = returned (decide_counter counter)

  unfoldable pub check : String → S → LimiterOutcome RateLimitDecision × S
  check key s =
      if str_eq key ""
      then (configuration_error, s)
      else (let (found, s') = store.get key s in (conclude_check found, s'))

  abbrev conclude_failure : Option AttemptCounter → LimiterOutcome RateLimitDecision
  conclude_failure none = on_failure limits.on_store_error
  conclude_failure (some counter) = returned (decide_counter counter)

  unfoldable pub record_failure : String → S → LimiterOutcome RateLimitDecision × S
  record_failure key s =
      if str_eq key ""
      then (configuration_error, s)
      else (let (counted, s') = store.increment key limits.window_ms s in
          (conclude_failure counted, s'))

  abbrev conclude_success : OnStoreError → Option (Unit {0}) → LimiterOutcome (Unit {0})
  conclude_success deny none = store_failed
  conclude_success allow none = returned tt
  conclude_success _ (some done) = returned tt

  unfoldable pub record_success : String → S → LimiterOutcome (Unit {0}) × S
  record_success key s =
      if str_eq key ""
      then (configuration_error, s)
      else (let (cleared, s') = store.reset key s in
          (conclude_success limits.on_store_error cleared, s'))
