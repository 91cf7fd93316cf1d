-- ===== src/Auth/Refresh/Steps.antt =====
-- packages/auth-utils/src/refresh.ts: what a request to the refresh-token service meets, how its loops
-- step, and `revokeById`.
use first_principles.Base.{
  ℕ, zero, suc, String, Bool, true, false, not, Option, none, some, List, if◌then◌else◌,
}
use first_principles.Auth.Family.{
  RevocationReason, TokenFamily, RefreshFailureReason, RefreshDecision, rotated, reuse, rejected,
  is_revoked, revoke, family_issued,
}
use first_principles.Auth.Store.{Entry, Families, read, compare_and_set, Operation, perform_all}

pub record IssuedRefreshToken : Type 0 where
  pub token : String
  pub family_id : String
  pub subject : String
  pub expires_at : ℕ
  pub family_expires_at : ℕ

-- How a call ends: with a value, with a refusal, or with a thrown error.
pub data Outcome {ℓ} (A : Type ℓ) : Type ℓ where
  ok : A → Outcome A
  refused : RefreshFailureReason → Outcome A
  store_error configuration_error : Outcome A

-- What surrounds one attempt: what others do before it reads and before it writes, the clocks of the
-- store and of the service, and the secret that is drawn.
pub record Attempt : Type 0 where
  pub before : List Operation
  pub read_at : ℕ
  pub now : ℕ
  pub secret : String
  pub between : List Operation

-- One attempt either settles the call or lost its race.
pub data Step : Type 0 where
  settled : Outcome IssuedRefreshToken → Step
  lost_race : Bool → Step

abbrev is_reuse : RefreshDecision → Bool
is_reuse (reuse _) = true
is_reuse _ = false

abbrev pub issued_from : String → TokenFamily → Outcome IssuedRefreshToken
issued_from token family = elim family.current [
  | none ↦ refused RefreshFailureReason.unknown_token
  | some current ↦ ok (record {
    token = token;
    family_id = family.id;
    subject = family.subject;
    expires_at = current.expires_at;
    family_expires_at = family.absolute_expires_at;
  })
]

-- What follows `compareAndSet`.
abbrev after_write : RefreshDecision → String → Bool × Families → Step × Families
after_write decision token (false, m) = (lost_race (is_reuse decision), m)
after_write (reuse family) token (true, m) = (settled (refused RefreshFailureReason.reused), m)
after_write (rotated family) token (true, m) = (settled (issued_from token family), m)
after_write (rejected reason) token (true, m) = (settled (refused reason), m)

unfoldable pub write_decision :
    RefreshDecision → String → ℕ → List Operation → Families → Step × Families
write_decision (rejected reason) token revision between m = (settled (refused reason), m)
write_decision (rotated family) token revision between m =
    after_write (rotated family) token (compare_and_set family revision (perform_all between m))
write_decision (reuse family) token revision between m =
    after_write (reuse family) token (compare_and_set family revision (perform_all between m))

-- How the loop of `rotate` ends: settled, or out of attempts with or without having seen reuse.
pub data LoopEnd : Type 0 where
  returned : Outcome IssuedRefreshToken → LoopEnd
  exhausted : Bool → LoopEnd

-- What an attempt of `revokeById` does; `none` is a lost race.
abbrev may_revoke : Option String → TokenFamily → Bool
may_revoke none family = true
may_revoke (some presented) family = family_issued family presented

abbrev revoke_on :
    RevocationReason → Option String → Attempt → Option Entry × Families → Bool × Families
revoke_on reason presented at (none, m) = (true, m)
revoke_on reason presented at (some stored, m) =
    if is_revoked stored.family
    then (true, m)
    else if not (may_revoke presented stored.family)
    then (true, m)
    else compare_and_set (revoke stored.family at.now reason) stored.revision
        (perform_all at.between m)

-- `revokeById`: whether it returned, or threw after its last attempt.
unfoldable pub revoke_by_id :
    String → RevocationReason → Option String → (ℕ → Attempt) → ℕ → Families → Bool × Families
revoke_by_id id reason presented schedule zero m = (false, m)
revoke_by_id id reason presented schedule (suc left) m =
    let at = schedule left in
    let (done, m') = revoke_on reason presented at (read at.read_at id (perform_all at.before m)) in
    elim done [ true ↦ (true, m') | false ↦ revoke_by_id id reason presented schedule left m' ]
