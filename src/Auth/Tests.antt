-- ===== src/Auth/Tests.antt =====
-- Runs of the models at concrete inputs, with the identity for the digest.
use first_principles.Base.{
  ◌≡◌, refl, ℕ, ◌≤◌, ◌<◌, String, true, false, none, some, List, [], ◌∷◌, lookup, arith, str_eq,
  str_eq_iff, ◌++◌,
}
use first_principles.Base.Texts.{slice_to, size}
use first_principles.Auth.Token.{
  ParsedToken, index_of, slice_from, parse_at, hashes_match, mint_token, parse_token, contains,
  separator,
}
use first_principles.Auth.Token.RoundTrip.{parse_token-mint_token, parse_token-eq-some}
use first_principles.Auth.Family.{
  rotate_current, TokenFamily, RefreshFailureReason, reuse, rejected, is_revoked, was_used, revoke,
  keep_last, decide_rotation,
}
use first_principles.Auth.Family.Invariant.{IsSound, SameFamily, decide_rotation-IsSound}
use first_principles.Auth.Family.Kept.{IsEnd}
use first_principles.Auth.Family.Window.{
  Presentation, decide, rotations, retired, rotations-window, reuse_is_detected,
}
use first_principles.Base.Maps.{map_set, map_delete}
use first_principles.Auth.Store.{
  Entry, Families, live, read, perform, compare_and_set, reads, perform_all, create,
}
use first_principles.Auth.Store.Once.{compare_and_set_once}
use first_principles.Auth.Store.Keyed.{IsKeyed}
use first_principles.Auth.Refresh.{
  IssuedRefreshToken, Config, ok, refused, Attempt, issue, rotate, write_decision, attempt_rotation,
  rotate_loop,
}
use first_principles.Auth.Refresh.Rotate.{Rotated, Scheduled, rotate-ok}
use first_principles.Auth.Refresh.Settled.{IsQuiet}
use first_principles.Auth.Refresh.Chain.{issue-rotate}
use first_principles.Auth.Refresh.Quiet.{rotate-quiet, rotate-replayed}

abbrev digest : String → String
digest s = s

abbrev config : Config
config = record { ttl_ms = 1000; absolute_ttl_ms = 5000; max_chain_length = 3; max_retries = 2 }

abbrev first_family : TokenFamily
first_family = record {
  id = "fam";
  subject = "ann";
  created_at = 0;
  absolute_expires_at = 5000;
  current = some (record { hash = "one"; issued_at = 0; expires_at = 1000 });
  used_hashes = [];
  revoked_at = none;
  revoked_reason = none;
}

abbrev second_family : TokenFamily
second_family = record first_family {
  current = some (record { hash = "two"; issued_at = 10; expires_at = 1010 });
  used_hashes = "one" ∷ [];
}

abbrev stored_first : Families
stored_first = ("fam", record { family = first_family; revision = 1 }) ∷ []

abbrev stored_second : Families
stored_second = ("fam", record { family = second_family; revision = 2 }) ∷ []

abbrev attempt : ℕ → Attempt
attempt k = record { before = []; read_at = 10; now = 10; secret = "two"; between = [] }

abbrev second_issued : IssuedRefreshToken
second_issued = record {
  token = "fam.two";
  family_id = "fam";
  subject = "ann";
  expires_at = 1010;
  family_expires_at = 5000;
}

program : Unit {0}
unfolding issue create live read map_set map_delete mint_token parse_token parse_at size index_of
    slice_to slice_from contains hashes_match str_eq rotate rotate_loop attempt_rotation
    write_decision compare_and_set perform_all perform decide_rotation rotate_current was_used
    revoke keep_last
program = tt

issue_runs : issue digest config "ann" "fam" "one" 0 0 [] ≡ (
  ok (record {
    token = "fam.one";
    family_id = "fam";
    subject = "ann";
    expires_at = 1000;
    family_expires_at = 5000;
  }),
  stored_first,
)
unfolding program
issue_runs = refl

rotate_runs :
    rotate digest config "fam.one" attempt attempt stored_first ≡ (ok second_issued, stored_second)
unfolding program
rotate_runs = refl

parse_token-mint_token_example :
    parse_token digest (mint_token digest "fam" "one").token
    ≡ some (record { family_id = "fam"; presented_hash = (mint_token digest "fam" "one").hash })
unfolding size contains
parse_token-mint_token_example =
    parse_token-mint_token digest "fam" "one" (omega arith) (omega arith) refl refl

parse_token-eq-some_example :
    (secret : String) × ("fam.one" ≡ (mint_token digest "fam" secret).token)
    × ("one" ≡ digest secret)
    × (0 < size "fam")
    × (0 < size secret)
    × (contains separator "fam" ≡ false)
    × (contains separator secret ≡ false)
unfolding program
parse_token-eq-some_example =
    parse_token-eq-some digest "fam.one" (record { family_id = "fam"; presented_hash = "one" }) refl

first_family-IsSound : IsSound 3 first_family
first_family-IsSound = record {
  current = refl;
  reason = refl;
  capped = omega arith;
  bounded = omega arith;
}

decide_rotation-IsSound_example : IsSound 3 second_family × SameFamily first_family second_family
unfolding program
decide_rotation-IsSound_example =
    decide_rotation-IsSound "one" (mint_token digest "fam" "two") 10 1000 3 first_family
      second_family first_family-IsSound refl

abbrev presentation : String → String → ℕ → Presentation
presentation presented next now = record {
  presented = presented;
  minted = mint_token digest "fam" next;
  now = now;
}

abbrev third_family : TokenFamily
third_family = record first_family {
  current = some (record { hash = "three"; issued_at = 20; expires_at = 1020 });
  used_hashes = "one" ∷ "two" ∷ [];
}

abbrev two_rotations : List Presentation
two_rotations = presentation "one" "two" 10 ∷ presentation "two" "three" 20 ∷ []

rotations_runs : rotations 1000 3 first_family two_rotations ≡ some third_family
unfolding program rotations
rotations_runs = refl

rotations-window_example :
    IsEnd 3 (first_family.used_hashes ++ retired 1000 3 two_rotations) third_family.used_hashes
    × (is_revoked third_family ≡ false)
rotations-window_example =
    rotations-window 1000 3 first_family third_family two_rotations (omega arith) refl
      rotations_runs

reuse_is_detected_example :
    (g' : TokenFamily) × (decide 1000 3 (presentation "one" "four" 30) third_family ≡ reuse g')
    × (is_revoked g' ≡ true)
    × (decide 1000 3 (presentation "three" "four" 40) g' ≡ rejected RefreshFailureReason.revoked)
unfolding str_eq
reuse_is_detected_example =
    reuse_is_detected 1000 3 first_family third_family two_rotations (presentation "one" "four" 30)
      (presentation "three" "four" 40) (omega arith) refl rotations_runs (omega arith) refl

compare_and_set_once_example :
    compare_and_set second_family 1 (perform_all (reads 20 "fam" ∷ []) stored_second)
    ≡ (false, perform_all (reads 20 "fam" ∷ []) stored_second)
unfolding program
compare_and_set_once_example =
    compare_and_set_once second_family second_family 1 1 stored_first stored_second
      (reads 20 "fam" ∷ []) refl (omega arith) (tt, tt) refl

rotate-ok_example :
    (parsed : ParsedToken) × (parse_token digest "fam.one" ≡ some parsed)
    × (r : Rotated digest config parsed second_issued stored_first stored_second) × Scheduled digest
        config parsed attempt config.max_retries [] r.at r.before
    × (is_revoked r.written ≡ false)
    × (was_used r.written parsed.presented_hash ≡ true)
    × (second_issued.expires_at ≤ second_issued.family_expires_at)
rotate-ok_example =
    rotate-ok digest config "fam.one" attempt attempt stored_first stored_second second_issued
      (omega arith) rotate_runs

attempt-IsQuiet : IsQuiet (attempt 1)
attempt-IsQuiet = record { before = refl; between = refl }

rotate-quiet_example :
    rotate digest config "fam.one" attempt attempt stored_first ≡ (ok second_issued, stored_second)
unfolding program
rotate-quiet_example =
    rotate-quiet digest config "fam.one" attempt attempt 1 stored_first
      (record { family_id = "fam"; presented_hash = "one" })
      (record { family = first_family; revision = 1 }) refl attempt-IsQuiet refl refl refl
      (omega arith)

stored_first-IsKeyed : IsKeyed stored_first
stored_first-IsKeyed id e found = ground (arith, str_eq_iff "fam" id)

rotate-replayed_example :
    (m'' : Families) × (e : Entry) × (rotate digest config "fam.one" attempt attempt stored_second
      ≡ (refused RefreshFailureReason.reused, m''))
    × (lookup "fam" m'' ≡ some e)
    × (is_revoked e.family ≡ true)
rotate-replayed_example =
    rotate-replayed digest config "fam.one" attempt attempt attempt attempt 1 stored_first
      stored_second second_issued stored_first-IsKeyed (omega arith) refl rotate_runs
      attempt-IsQuiet (omega arith)

abbrev first_issued : IssuedRefreshToken
first_issued = record {
  token = "fam.one";
  family_id = "fam";
  subject = "ann";
  expires_at = 1000;
  family_expires_at = 5000;
}

issue-rotate_example :
    (next : IssuedRefreshToken) × (m'' : Families) × (rotate digest config first_issued.token
        attempt attempt stored_first
      ≡ (ok next, m''))
    × (next.family_id ≡ first_issued.family_id)
    × (next.subject ≡ first_issued.subject)
    × (next.family_expires_at ≡ first_issued.family_expires_at)
unfolding size contains
issue-rotate_example =
    issue-rotate digest config "ann" "fam" "one" 0 0 [] stored_first first_issued attempt attempt 1
      (omega arith) (omega arith) refl refl issue_runs refl attempt-IsQuiet (omega arith)
      (omega arith)
