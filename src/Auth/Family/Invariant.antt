-- ===== src/Auth/Family/Invariant.antt =====
-- What every family in the store satisfies, and that a decision keeps it.
use first_principles.Base.{
  ◌≡◌, ℕ, ◌+◌, ◌-◌, ◌≤◌, String, Bool, true, false, not, Option, none, some, List, [], ◌∷◌, ◌++◌,
  if◌then◌else◌, length, length-append, length-drop, arith,
}
use first_principles.Auth.Token.{MintedToken}
use first_principles.Auth.Family.{
  FamilyToken, TokenFamily, RevocationReason, RefreshDecision, rotated, reuse, rejected, is_revoked,
  retire, revoke, keep_last, rotate_current, decide_rotation,
}

abbrev pub is_present {ℓ} : {A : Type ℓ} → Option A → Bool
is_present none = false
is_present (some _) = true

abbrev pub expiry : Option FamilyToken → ℕ
expiry none = 0
expiry (some token) = token.expires_at

-- A family is revoked exactly if it has no current token and exactly if it says why; its token ends no
-- later than itself; and it keeps at most `max` used digests, and one more from its revocation.
pub record IsSound (max_chain_length : ℕ) (f : TokenFamily) : Type 0 where
  pub current : is_present f.current ≡ not (is_revoked f)
  pub reason : is_present f.revoked_reason ≡ is_revoked f
  pub capped : expiry f.current ≤ f.absolute_expires_at
  pub bounded : length f.used_hashes ≤ max_chain_length + (if is_revoked f then 1 else 0)

-- The family that the caller is to write.
abbrev pub written : RefreshDecision → Option TokenFamily
written (rotated f) = some f
written (reuse f) = some f
written (rejected _) = none

pub record SameFamily (f g : TokenFamily) : Type 0 where
  pub id : g.id ≡ f.id
  pub subject : g.subject ≡ f.subject
  pub created_at : g.created_at ≡ f.created_at
  pub absolute_expires_at : g.absolute_expires_at ≡ f.absolute_expires_at

length-keep_last : (n : ℕ) (used : List String) → length (keep_last n used) ≤ n
unfolding keep_last
length-keep_last n used = ground (arith, length-drop (length used - n) used)

length-retire :
    (current : Option FamilyToken) (used : List String)
    → length (retire current used) ≡ length used + (if is_present current then 1 else 0)
length-retire none used = omega arith
length-retire (some token) used = omega (arith, length-append used (token.hash ∷ []))

pub revoke-IsSound :
    (max_chain_length : ℕ) (f : TokenFamily) (now : ℕ) (why : RevocationReason)
    → IsSound max_chain_length f
    → IsSound max_chain_length (revoke f now why)
      × SameFamily f (revoke f now why)
      × (is_revoked (revoke f now why) ≡ true)
unfolding revoke
revoke-IsSound n f now why h =
    (ground (arith, length-retire f.current f.used_hashes), ground arith, ground arith)

rotate_current-IsSound :
    (presented : String) (minted : MintedToken) (now ttl_ms n : ℕ) (f g : TokenFamily)
    (current : Option FamilyToken)
    → IsSound n f
    → is_revoked f ≡ false
    → written (rotate_current presented minted now ttl_ms n f current) ≡ some g
    → IsSound n g × SameFamily f g
unfolding rotate_current
rotate_current-IsSound presented minted now ttl_ms n f g none h live e = absurd (ground arith)
rotate_current-IsSound presented minted now ttl_ms n f g (some c) h live e =
    ground (arith, length-keep_last n (f.used_hashes ++ c.hash ∷ []))

-- Whatever family a decision hands to the store keeps the invariant, and is the same family: its id,
-- subject, start and absolute end stay.
pub decide_rotation-IsSound :
    (presented : String) (minted : MintedToken) (now ttl_ms max_chain_length : ℕ)
    (f g : TokenFamily)
    → IsSound max_chain_length f
    → written (decide_rotation presented minted now ttl_ms max_chain_length f) ≡ some g
    → IsSound max_chain_length g × SameFamily f g
unfolding decide_rotation
decide_rotation-IsSound presented minted now ttl_ms n f g h e = ground (
  arith,
  revoke-IsSound n f now RevocationReason.reuse_detected h,
  rotate_current-IsSound presented minted now ttl_ms n f g f.current h,
)
