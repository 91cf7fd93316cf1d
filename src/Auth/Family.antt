-- ===== src/Auth/Family.antt =====
-- packages/auth-utils/src/internal/refresh-state.ts: the decisions of refresh-token rotation. Times
-- are milliseconds since the epoch.
pub mod Invariant
pub mod Kept
pub mod Window
use first_principles.Base.{
  ℕ, ◌+◌, ◌-◌, String, Bool, true, false, not, Option, none, some, List, [], ◌∷◌, ◌++◌,
  if◌then◌else◌, leb, ltb, min, any, length, drop,
}
use first_principles.Auth.Token.{MintedToken, hashes_match}

pub data RevocationReason : Type 0 where
  reuse_detected revoked : RevocationReason

pub record FamilyToken : Type 0 where
  pub hash : String
  pub issued_at : ℕ
  pub expires_at : ℕ

pub record TokenFamily : Type 0 where
  pub id : String
  pub subject : String
  pub created_at : ℕ
  pub absolute_expires_at : ℕ
  pub current : Option FamilyToken
  pub used_hashes : List String
  pub revoked_at : Option ℕ
  pub revoked_reason : Option RevocationReason

pub data RefreshFailureReason : Type 0 where
  malformed unknown_family unknown_token expired family_expired revoked reused :
      RefreshFailureReason

pub data RefreshDecision : Type 0 where
  rotated : TokenFamily → RefreshDecision
  reuse : TokenFamily → RefreshDecision
  rejected : RefreshFailureReason → RefreshDecision

abbrev retire : Option FamilyToken → List String → List String
retire none used = used
retire (some current) used = used ++ current.hash ∷ []

abbrev is_revoked_at : Option ℕ → Bool
is_revoked_at none = false
is_revoked_at (some _) = true

abbrev pub is_revoked : TokenFamily → Bool
is_revoked family = is_revoked_at family.revoked_at

unfoldable pub revoke : TokenFamily → ℕ → RevocationReason → TokenFamily
revoke family now reason = if is_revoked family then family else record family {
  current = none;
  used_hashes = retire family.current family.used_hashes;
  revoked_at = some now;
  revoked_reason = some reason;
}

unfoldable pub was_used : TokenFamily → String → Bool
was_used family presented = any (λ used. hashes_match used presented) family.used_hashes

-- `usedHashes.length > max ? usedHashes.slice(usedHashes.length - max) : usedHashes`
unfoldable pub keep_last : ℕ → List String → List String
keep_last max_chain_length used =
    if ltb max_chain_length (length used) then drop (length used - max_chain_length) used else used

module _ (presented : String) (minted : MintedToken) (now ttl_ms max_chain_length : ℕ) where
  unfoldable pub rotate_current : TokenFamily → Option FamilyToken → RefreshDecision
  rotate_current family none = rejected unknown_token
  rotate_current family (some current) =
      if not (hashes_match current.hash presented)
      then rejected unknown_token
      else if leb current.expires_at now
      then rejected expired
      else rotated (record family {
        current = some (record {
          hash = minted.hash;
          issued_at = now;
          expires_at = min (now + ttl_ms) family.absolute_expires_at;
        });
        used_hashes = keep_last max_chain_length (family.used_hashes ++ current.hash ∷ []);
      })

  unfoldable pub decide_rotation : TokenFamily → RefreshDecision
  decide_rotation family =
      if is_revoked family
      then rejected RefreshFailureReason.revoked
      else if was_used family presented
      then reuse (revoke family now reuse_detected)
      else if leb family.absolute_expires_at now
      then rejected family_expired
      else rotate_current family family.current

abbrev current_matches : Option FamilyToken → String → Bool
current_matches none presented = false
current_matches (some current) presented = hashes_match current.hash presented

unfoldable pub family_issued : TokenFamily → String → Bool
unfolding was_used
family_issued family presented =
    if current_matches family.current presented then true else was_used family presented
