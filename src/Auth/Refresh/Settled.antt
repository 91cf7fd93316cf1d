-- ===== src/Auth/Refresh/Settled.antt =====
-- An attempt that nobody interferes with carries its decision out.
use first_principles.Base.Maps.{map_set}
use first_principles.Base.{
  ◌≡◌, refl, ℕ, ◌+◌, ◌<◌, String, true, Option, none, some, [], lookup, arith,
}
use first_principles.Auth.Token.{MintedToken}
use first_principles.Auth.Family.{
  RevocationReason, TokenFamily, FamilyToken, RefreshFailureReason, RefreshDecision, rotated, reuse,
  rejected, revoke, decide_rotation, rotate_current,
}
use first_principles.Auth.Store.{Entry, Families, live, read, compare_and_set, perform_all}
use first_principles.Auth.Refresh.{
  IssuedRefreshToken, Outcome, refused, Attempt, settled, issued_from, write_decision,
}

-- What a call answers by a decision, and what it leaves in the store.
abbrev pub carry_out :
    String → Entry → RefreshDecision → Families → Outcome IssuedRefreshToken × Families
carry_out token stored (rejected why) m = (refused why, m)
carry_out token stored (reuse g) m = (
  refused RefreshFailureReason.reused,
  map_set m stored.family.id (record { family = g; revision = stored.revision + 1 }),
)
carry_out token stored (rotated g) m = (
  issued_from token g,
  map_set m stored.family.id (record { family = g; revision = stored.revision + 1 }),
)

abbrev pub proposed : RefreshDecision → Option TokenFamily
proposed (rotated g) = some g
proposed (reuse g) = some g
proposed (rejected why) = none

pub revoke-id : (f : TokenFamily) (now : ℕ) (why : RevocationReason) → (revoke f now why).id ≡ f.id
unfolding revoke
revoke-id f now why = ground arith

pub rotate_current-id :
    (presented : String) (minted : MintedToken) (now ttl_ms n : ℕ) (f g : TokenFamily)
    (current : Option FamilyToken)
    → proposed (rotate_current presented minted now ttl_ms n f current) ≡ some g
    → g.id ≡ f.id
unfolding rotate_current
rotate_current-id presented minted now ttl_ms n f g none e = absurd (ground arith)
rotate_current-id presented minted now ttl_ms n f g (some c) e = ground arith

pub decide_rotation-id :
    (presented : String) (minted : MintedToken) (now ttl_ms n : ℕ) (f g : TokenFamily)
    → proposed (decide_rotation presented minted now ttl_ms n f) ≡ some g
    → g.id ≡ f.id
unfolding decide_rotation
decide_rotation-id presented minted now ttl_ms n f g e = ground (
  arith,
  revoke-id f now RevocationReason.reuse_detected,
  rotate_current-id presented minted now ttl_ms n f g f.current,
)

pub read-live :
    (now : ℕ) (id : String) (m : Families) (stored : Entry)
    → lookup id m ≡ some stored
    → now < stored.family.absolute_expires_at
    → read now id m ≡ (some stored, m)
unfolding read live
read-live now id m stored found fresh = ground arith

pub compare_and_set-won :
    (g : TokenFamily) (m : Families) (stored : Entry)
    → lookup g.id m ≡ some stored
    → compare_and_set g stored.revision m
      ≡ (true, map_set m g.id (record { family = g; revision = stored.revision + 1 }))
unfolding compare_and_set
compare_and_set-won g m stored found = ground arith

pub write_decision-quiet :
    (d : RefreshDecision) (token : String) (stored : Entry) (m : Families)
    → lookup stored.family.id m ≡ some stored
    → ((g : TokenFamily) → proposed d ≡ some g → g.id ≡ stored.family.id)
    → write_decision d token stored.revision [] m
      ≡ (settled (carry_out token stored d m).0, (carry_out token stored d m).1)
unfolding write_decision perform_all
write_decision-quiet (rejected why) token stored m found same = refl
write_decision-quiet (reuse g) token stored m found same =
    ground (arith, same g refl, compare_and_set-won g m stored)
write_decision-quiet (rotated g) token stored m found same =
    ground (arith, same g refl, compare_and_set-won g m stored)

-- An attempt in which nobody else acts on the store.
pub record IsQuiet (at : Attempt) : Type 0 where
  pub before : at.before ≡ []
  pub between : at.between ≡ []
