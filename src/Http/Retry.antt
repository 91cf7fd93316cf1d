-- ===== src/Http/Retry.antt =====
-- packages/http-client/src/internal/retry.ts. The results that the attempts would give are a function
-- of how many were made before. `draw i cap` is the random part of the cap that `Math.random()` takes for
-- the wait behind attempt `i`, in a unit in which the waits are whole.
pub mod Bounds
use first_principles.Base.{
  ℕ, zero, suc, ◌+◌, ◌-◌, ◌*◌, ◌^◌, Bool, true, false, not, Option, none, some, List, [], ◌∷◌,
  if◌then◌else◌, leb,
}

pub data FailureKind : Type 0 where
  network validation http : FailureKind

pub record ApiErr : Type 0 where
  pub kind : FailureKind
  pub status : Option ℕ

pub data ApiResult {ℓ} (T : Type ℓ) : Type ℓ where
  ok : T → ApiResult T
  err : ApiErr → ApiResult T

abbrev is_server_error : Option ℕ → Bool
is_server_error none = false
is_server_error (some status) = leb 500 status

abbrev retries_kind : FailureKind → Option ℕ → Bool
retries_kind network status = true
retries_kind validation status = false
retries_kind http status = is_server_error status

unfoldable pub default_retry_on : ApiErr → Bool
default_retry_on failure = retries_kind failure.kind failure.status

pub record RetryConfig : Type 0 where
  pub attempts : Option ℕ
  pub backoff_ms : Option ℕ
  pub retry_on : Option (ApiErr → Bool)

pub record ResolvedRetryConfig : Type 0 where
  pub attempts : ℕ
  pub backoff_ms : ℕ
  pub retry_on : ApiErr → Bool

-- What a call may say about retries: `false`, nothing, or a partial configuration.
pub data Override : Type 0 where
  disabled unset : Override
  partly : RetryConfig → Override

abbrev no_retry : ResolvedRetryConfig
no_retry = record { attempts = 1; backoff_ms = 0; retry_on = λ failure. false }

abbrev or_else {ℓ} : {A : Type ℓ} → Option A → A → A
or_else none fallback = fallback
or_else (some a) fallback = a

-- The defaults of the module, where there is no base.
abbrev base_of : Option ResolvedRetryConfig → ResolvedRetryConfig
base_of none = record { attempts = 2; backoff_ms = 200; retry_on = default_retry_on }
base_of (some base) = base

unfoldable pub resolve_retry_config : Override → Option ResolvedRetryConfig → ResolvedRetryConfig
resolve_retry_config disabled base = no_retry
resolve_retry_config unset base = base_of base
resolve_retry_config (partly config) base = record {
  attempts = or_else config.attempts (base_of base).attempts;
  backoff_ms = or_else config.backoff_ms (base_of base).backoff_ms;
  retry_on = or_else config.retry_on (base_of base).retry_on;
}

unfoldable pub compute_backoff_ms : (ℕ → ℕ → ℕ) → ℕ → ℕ → ℕ
compute_backoff_ms draw attempt_index backoff_ms =
    draw attempt_index (backoff_ms * 2 ^ attempt_index)

-- How `executeWithRetry` ends: the result, how many attempts were made, and how long it waited.
pub record Execution {ℓ} (T : Type ℓ) : Type ℓ where
  pub result : ApiResult T
  pub made : ℕ
  pub waits : List ℕ

module _ {ℓ} {T : Type ℓ} (attempt : ℕ → ApiResult T) (draw : ℕ → ℕ → ℕ)
    (config : ResolvedRetryConfig) where
  abbrev stops : ApiResult T → Bool
  stops (ok value) = true
  stops (err failure) = not (config.retry_on failure)

  abbrev waited : ℕ → Execution T → Execution T
  waited ms e = record e { waits = ms ∷ e.waits }

  -- The loop, with the rounds that are left, and `index` of the round.
  unfoldable pub retry_loop : ℕ → ℕ → ApiResult T → Execution T
  retry_loop zero index result = record { result = result; made = index + 1; waits = [] }
  retry_loop (suc left) index result =
      let rest = retry_loop left (index + 1) (attempt (index + 1)) in
      if stops result
      then record { result = result; made = index + 1; waits = [] }
      else waited (compute_backoff_ms draw index config.backoff_ms) rest

  unfoldable pub execute_with_retry : Execution T
  execute_with_retry = retry_loop (config.attempts - 1) 0 (attempt 0)
