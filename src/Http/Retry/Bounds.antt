-- ===== src/Http/Retry/Bounds.antt =====
-- Which attempts are made.
use mathlib.Core.Path.{subst}
use first_principles.Base.{
  ◌≡◌, refl, ◌⊎◌, inl, inr, ℕ, zero, suc, ◌+◌, ◌-◌, ◌≤◌, ◌<◌, Bool, true, false, length, arith,
  Bool-cases,
}
use first_principles.Http.Retry.{
  ApiErr, ApiResult, ok, err, ResolvedRetryConfig, Execution, stops, retry_loop, execute_with_retry,
}

first_or_later : {k : ℕ} (i : ℕ) → k ≤ i → (i ≡ k) ⊎ (k + 1 ≤ i)
first_or_later i h = omega arith

module _ {ℓ} {T : Type ℓ} (attempt : ℕ → ApiResult T) (draw : ℕ → ℕ → ℕ)
    (config : ResolvedRetryConfig) where
  -- A failure that the configuration tells to retry, and a result that it does not.
  abbrev pub IsRetried : ApiResult T → Type ℓ
  IsRetried r = (failure : ApiErr) × (r ≡ err failure) × (config.retry_on failure ≡ true)

  abbrev pub IsFinal : ApiResult T → Type ℓ
  IsFinal r =
      ((value : T) × (r ≡ ok value))
      ⊎ ((failure : ApiErr) × (r ≡ err failure) × (config.retry_on failure ≡ false))

  stops-IsRetried : (r : ApiResult T) → stops attempt draw config r ≡ false → IsRetried r
  stops-IsRetried (ok value) h = absurd (ground (arith, h))
  stops-IsRetried (err failure) h = (failure, refl, ground (arith, h))

  stops-IsFinal : (r : ApiResult T) → stops attempt draw config r ≡ true → IsFinal r
  stops-IsFinal (ok value) h = inl (value, refl)
  stops-IsFinal (err failure) h = inr (failure, refl, ground (arith, h))

  abbrev stops_at : ℕ → Bool
  stops_at i = stops attempt draw config (attempt i)

  -- The attempts of a request: the last one gave the result, every earlier one failed in a way that is
  -- retried, and the last one did not, unless it was the last that is allowed.
  pub record IsRun (first allowed : ℕ) (e : Execution T) : Type ℓ where
    pub last : ℕ
    pub made : e.made ≡ last + 1
    pub result : e.result ≡ attempt last
    pub from_first : first ≤ last
    pub within : last < first + allowed
    pub retried : (i : ℕ) → first ≤ i → i < last → IsRetried (attempt i)
    pub concluded : IsFinal (attempt last) ⊎ (last + 1 ≡ first + allowed)
    pub waits : length e.waits ≡ last - first

  retry_loop-IsRun :
      (left index : ℕ)
      → IsRun index (left + 1) (retry_loop attempt draw config left index (attempt index))
  unfolding retry_loop
  retry_loop-IsRun zero index = record {
    last = index;
    made = refl;
    result = refl;
    from_first = omega arith;
    within = omega arith;
    retried = λ i from below. absurd (omega arith);
    concluded = inr refl;
    waits = omega arith;
  }
  retry_loop-IsRun (suc left) index =
      let rest = retry_loop-IsRun left (index + 1) in
      elim (Bool-cases (stops_at index)) [
        | inl stop ↦ rw stop (record {
          last = index;
          made = refl;
          result = refl;
          from_first = omega arith;
          within = omega arith;
          retried = λ i from below. absurd (omega arith);
          concluded = inl (stops-IsFinal (attempt index) stop);
          waits = omega arith;
        })
        | inr goes_on ↦ rw goes_on (record {
          last = rest.last;
          made = rest.made;
          result = rest.result;
          from_first = omega (arith, rest.from_first);
          within = omega (arith, rest.within);
          retried = λ i from below. elim (first_or_later i from) [
            | inl same ↦ rw same (stops-IsRetried (attempt index) goes_on)
            | inr later ↦ rest.retried i later below
          ];
          concluded = elim rest.concluded [
            | inl stop ↦ inl stop
            | inr all ↦ inr (omega (arith, all))
          ];
          waits = omega (arith, rest.waits, rest.from_first);
        })
      ]

  -- A request with at least one attempt allowed makes no more than are allowed. The last one made gave
  -- its result; every earlier one ended in a failure that `retryOn` accepts; and the last one succeeded, or
  -- ended in a failure that `retryOn` does not accept, or none was left. It waits once between two attempts.
  pub execute_with_retry-IsRun :
      1 ≤ config.attempts → IsRun 0 config.attempts (execute_with_retry attempt draw config)
  unfolding execute_with_retry
  execute_with_retry-IsRun some_allowed =
      let all : config.attempts - 1 + 1 ≡ config.attempts = omega arith in
      subst (λ n. IsRun 0 n (execute_with_retry attempt draw config)) all
        (retry_loop-IsRun (config.attempts - 1) 0)
