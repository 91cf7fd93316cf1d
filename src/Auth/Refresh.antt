-- ===== src/Auth/Refresh.antt =====
-- packages/auth-utils/src/refresh.ts: the refresh-token service over the store in memory. Between two
-- awaited calls of a request other requests may act on the store: they are lists of operations. A
-- clock reading and a random secret are given for each attempt of a loop, counted down to 0.
mod Steps
pub mod Attempts
pub mod Rotate
pub mod Settled
pub mod Quiet
pub mod Chain
pub use Steps.{
  IssuedRefreshToken, Outcome, ok, refused, store_error, configuration_error, Attempt, Step,
  settled, lost_race, LoopEnd, returned, exhausted, issued_from,
}
unfoldable pub use Steps.{write_decision, revoke_by_id}
use first_principles.Base.{
  ℕ, zero, suc, ◌+◌, ◌*◌, String, Bool, true, false, not, ◌||◌, Option, none, some, List, [], ◌∷◌,
  if◌then◌else◌, leb, ltb, min, str_eq,
}
use first_principles.Auth.Token.{ParsedToken, mint_token, parse_token}
use first_principles.Auth.Family.{
  RevocationReason, TokenFamily, RefreshFailureReason, RefreshDecision, rotated, reuse, rejected,
  is_revoked, revoke, decide_rotation, family_issued,
}
use first_principles.Auth.Store.{
  Entry, Families, read, create, compare_and_set, Operation, perform_all,
}

-- The validated configuration of the service.
pub record Config : Type 0 where
  pub ttl_ms : ℕ
  pub absolute_ttl_ms : ℕ
  pub max_chain_length : ℕ
  pub max_retries : ℕ

-- `createRefreshTokenService`: every setting is a positive integer, and the absolute lifetime is no
-- shorter than the sliding one; `none` is the AuthConfigurationError.
unfoldable pub configure : ℕ → ℕ → ℕ → ℕ → Option Config
configure ttl_seconds absolute_ttl_seconds max_chain_length max_retries =
    if leb ttl_seconds 0 || leb absolute_ttl_seconds 0
    then none
    else if ltb (absolute_ttl_seconds * 1000) (ttl_seconds * 1000)
    then none
    else if leb max_chain_length 0 || leb max_retries 0
    then none
    else some (record {
      ttl_ms = ttl_seconds * 1000;
      absolute_ttl_ms = absolute_ttl_seconds * 1000;
      max_chain_length = max_chain_length;
      max_retries = max_retries;
    })

module _ (hash_secret : String → String) (config : Config) where
  abbrev pub new_family : String → String → String → ℕ → TokenFamily
  new_family family_id subject secret now = record {
    id = family_id;
    subject = subject;
    created_at = now;
    absolute_expires_at = now + config.absolute_ttl_ms;
    current = some (record {
      hash = (mint_token hash_secret family_id secret).hash;
      issued_at = now;
      expires_at = min (now + config.ttl_ms) (now + config.absolute_ttl_ms);
    });
    used_hashes = [];
    revoked_at = none;
    revoked_reason = none;
  }

  abbrev conclude_issue :
      String → String → String → ℕ → Bool × Families → Outcome IssuedRefreshToken × Families
  conclude_issue family_id subject secret now (false, m) = (store_error, m)
  conclude_issue family_id subject secret now (true, m) = (
    ok (record {
      token = (mint_token hash_secret family_id secret).token;
      family_id = family_id;
      subject = subject;
      expires_at = min (now + config.ttl_ms) (now + config.absolute_ttl_ms);
      family_expires_at = now + config.absolute_ttl_ms;
    }),
    m,
  )

  -- `issue`, with the random id and secret, and the readings of the service's and the store's clock.
  unfoldable pub issue :
      String → String → String → ℕ → ℕ → Families → Outcome IssuedRefreshToken × Families
  issue subject family_id secret now store_now m =
      if str_eq subject ""
      then (configuration_error, m)
      else conclude_issue family_id subject secret now
          (create store_now (new_family family_id subject secret now) m)

  abbrev decide_on : ParsedToken → Attempt → Option Entry × Families → Step × Families
  decide_on parsed at (none, m) = (settled (refused RefreshFailureReason.unknown_family), m)
  decide_on parsed at (some stored, m) =
      let minted = mint_token hash_secret parsed.family_id at.secret in
      write_decision
        (decide_rotation parsed.presented_hash minted at.now config.ttl_ms config.max_chain_length
          stored.family)
        minted.token stored.revision at.between m

  unfoldable pub attempt_rotation : ParsedToken → Attempt → Families → Step × Families
  attempt_rotation parsed at m =
      decide_on parsed at (read at.read_at parsed.family_id (perform_all at.before m))

  -- The attempts are counted down: `schedule k` is the attempt that leaves `k` more.
  unfoldable pub rotate_loop :
      ParsedToken → (ℕ → Attempt) → ℕ → Bool → Families → LoopEnd × Families
  rotate_loop parsed schedule zero saw_reuse m = (exhausted saw_reuse, m)
  rotate_loop parsed schedule (suc left) saw_reuse m =
      let (step, m') = attempt_rotation parsed (schedule left) m in
      elim step [
        | settled outcome ↦ (returned outcome, m')
        | lost_race reused_it ↦ rotate_loop parsed schedule left (saw_reuse || reused_it) m'
      ]

  -- After a loop that lost every race: a reuse that was seen is acted on as well as can be.
  abbrev conclude_rotation :
      ParsedToken → (ℕ → Attempt) → LoopEnd × Families → Outcome IssuedRefreshToken × Families
  conclude_rotation parsed schedule (returned outcome, m) = (outcome, m)
  conclude_rotation parsed schedule (exhausted false, m) = (store_error, m)
  conclude_rotation parsed schedule (exhausted true, m) = (
    refused RefreshFailureReason.reused,
    (revoke_by_id parsed.family_id RevocationReason.reuse_detected none schedule config.max_retries
        m).1,
  )

  -- `rotate`; the second schedule is that of a revocation after a loop that lost every race.
  unfoldable pub rotate :
      String → (ℕ → Attempt) → (ℕ → Attempt) → Families → Outcome IssuedRefreshToken × Families
  rotate token schedule cleanup m = elim (parse_token hash_secret token) [
    | none ↦ (refused RefreshFailureReason.malformed, m)
    | some parsed ↦
        conclude_rotation parsed cleanup (rotate_loop parsed schedule config.max_retries false m)
  ]

  -- `revoke` of a token, and `revokeFamily`: whether the call returned.
  unfoldable pub revoke_token : String → (ℕ → Attempt) → Families → Bool × Families
  revoke_token token schedule m = elim (parse_token hash_secret token) [
    | none ↦ (true, m)
    | some parsed ↦
        revoke_by_id parsed.family_id RevocationReason.revoked (some parsed.presented_hash) schedule
          config.max_retries m
  ]

  unfoldable pub revoke_family :
      String → RevocationReason → (ℕ → Attempt) → Families → Bool × Families
  revoke_family id reason schedule m = revoke_by_id id reason none schedule config.max_retries m
