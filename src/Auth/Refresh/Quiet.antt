-- ===== src/Auth/Refresh/Quiet.antt =====
-- A rotation that nobody interferes with does what `decideRotation` decides, and so a token that was
-- rotated away ends its family when it is presented once more.
use first_principles.Base.Maps.{map_set, lookup-map_set}
use first_principles.Base.{
  ◌≡◌, sym, ap, ◌∙◌, inl, inr, ℕ, suc, ◌+◌, ◌≤◌, ◌<◌, String, true, false, none, some, lookup,
  arith, Option-cases, str_eq_refl,
}
use first_principles.Auth.Token.{ParsedToken, mint_token, parse_token}
use first_principles.Auth.Family.{
  RevocationReason, TokenFamily, RefreshFailureReason, RefreshDecision, reuse, is_revoked, was_used,
  revoke, decide_rotation,
}
use first_principles.Auth.Store.{Entry, Families, live, perform_all}
use first_principles.Auth.Store.Keyed.{IsKeyed, IsKeyed-perform_all, read-Keyed}
use first_principles.Auth.Refresh.{
  IssuedRefreshToken, Config, ok, refused, Attempt, settled, issued_from, attempt_rotation,
  returned, rotate_loop, conclude_rotation, rotate,
}
use first_principles.Auth.Family.Window.{revoke-ends}
use first_principles.Auth.Refresh.Settled.{
  carry_out, proposed, decide_rotation-id, read-live, write_decision-quiet, IsQuiet,
}
use first_principles.Auth.Refresh.Rotate.{rotate-ok}

module _ (hash_secret : String → String) (config : Config) where
  -- What `decideRotation` says of a stored family, for an attempt with a presented token.
  abbrev pub verdict : ParsedToken → Attempt → TokenFamily → RefreshDecision
  verdict parsed at family =
      decide_rotation parsed.presented_hash (mint_token hash_secret parsed.family_id at.secret)
        at.now config.ttl_ms config.max_chain_length family

  attempt-quiet :
      (parsed : ParsedToken) (at : Attempt) (m : Families) (stored : Entry)
      → IsQuiet at
      → lookup parsed.family_id m ≡ some stored
      → stored.family.id ≡ parsed.family_id
      → at.read_at < stored.family.absolute_expires_at
      → let answer =
          carry_out
            (mint_token hash_secret parsed.family_id at.secret).token
            stored
            (verdict parsed at stored.family)
            m in
        attempt_rotation hash_secret config parsed at m ≡ (settled answer.0, answer.1)
  unfolding attempt_rotation perform_all
  attempt-quiet parsed at m stored quiet found same fresh =
      let minted = mint_token hash_secret parsed.family_id at.secret in
      rw (quiet.before, read-live at.read_at parsed.family_id m stored found fresh, quiet.between)
        (write_decision-quiet (verdict parsed at stored.family) minted.token stored m
          (ap (λ id. lookup id m) same ∙ found)
          (decide_rotation-id parsed.presented_hash minted at.now config.ttl_ms
            config.max_chain_length stored.family))

  rotate_loop-quiet :
      (parsed : ParsedToken) (schedule : ℕ → Attempt) (k : ℕ) (m : Families) (stored : Entry)
      → IsQuiet (schedule k)
      → lookup parsed.family_id m ≡ some stored
      → stored.family.id ≡ parsed.family_id
      → (schedule k).read_at < stored.family.absolute_expires_at
      → let answer =
          carry_out
            (mint_token hash_secret parsed.family_id (schedule k).secret).token
            stored
            (verdict parsed (schedule k) stored.family)
            m in
        rotate_loop hash_secret config parsed schedule (suc k) false m
        ≡ (returned answer.0, answer.1)
  unfolding rotate_loop
  rotate_loop-quiet parsed schedule k m stored quiet found same fresh =
      ground (arith, attempt-quiet parsed (schedule k) m stored quiet found same fresh)

  -- When at least one attempt is made, nobody else acts in the first, and the store's clock has not
  -- reached the end of the family that is stored under the token's id, which is its own, `rotate` returns what `decideRotation` decides on this
  -- family: a rejection leaves the store as it was, and a rotation and a reuse are written at the next
  -- revision.
  pub rotate-quiet :
      (token : String) (schedule cleanup : ℕ → Attempt) (k : ℕ) (m : Families)
      (parsed : ParsedToken) (stored : Entry)
      → config.max_retries ≡ suc k
      → IsQuiet (schedule k)
      → parse_token hash_secret token ≡ some parsed
      → lookup parsed.family_id m ≡ some stored
      → stored.family.id ≡ parsed.family_id
      → (schedule k).read_at < stored.family.absolute_expires_at
      → rotate hash_secret config token schedule cleanup m
        ≡ carry_out
            (mint_token hash_secret parsed.family_id (schedule k).secret).token
            stored
            (verdict parsed (schedule k) stored.family)
            m
  unfolding rotate
  rotate-quiet token schedule cleanup k m parsed stored some_left quiet parses found same fresh =
      ap
        (λ o. elim o [
          | none ↦ (refused RefreshFailureReason.malformed, m)
          | some p ↦
              conclude_rotation hash_secret config p cleanup
                (rotate_loop hash_secret config p schedule config.max_retries false m)
        ])
        parses
      ∙ (ap
            (λ n.
              conclude_rotation hash_secret config parsed cleanup
                (rotate_loop hash_secret config parsed schedule n false m))
            some_left
          ∙ ap (conclude_rotation hash_secret config parsed cleanup)
              (rotate_loop-quiet parsed schedule k m stored quiet found same fresh))

  issued_from-fields :
      (token : String) (g : TokenFamily) (issued : IssuedRefreshToken)
      → issued_from token g ≡ ok issued
      → (issued.family_expires_at ≡ g.absolute_expires_at) × (issued.family_id ≡ g.id)
  issued_from-fields token g issued e = elim (Option-cases g.current) [
    | inl c ↦ absurd (ground (arith, c))
    | inr (current, c) ↦ ground (arith, c)
  ]

  verdict-replayed :
      (parsed : ParsedToken) (at : Attempt) (f : TokenFamily)
      → is_revoked f ≡ false
      → was_used f parsed.presented_hash ≡ true
      → verdict parsed at f ≡ reuse (revoke f at.now RevocationReason.reuse_detected)
  unfolding decide_rotation
  verdict-replayed parsed at f live used = ground arith

  -- A token that was rotated with success, presented again while nobody interferes and the family has
  -- not reached its end, is refused as reused, and the family is then stored revoked; all this where
  -- families are stored under their ids, at least one digest is kept and at least one attempt is made.
  pub rotate-replayed :
      (token : String) (schedule cleanup again cleanup' : ℕ → Attempt) (k : ℕ) (m m' : Families)
      (issued : IssuedRefreshToken)
      → IsKeyed m
      → 1 ≤ config.max_chain_length
      → config.max_retries ≡ suc k
      → rotate hash_secret config token schedule cleanup m ≡ (ok issued, m')
      → IsQuiet (again k)
      → (again k).read_at < issued.family_expires_at
      → (m'' : Families) × (e : Entry) × (rotate hash_secret config token again cleanup' m'
          ≡ (refused RefreshFailureReason.reused, m''))
        × (lookup issued.family_id m'' ≡ some e)
        × (is_revoked e.family ≡ true)
  rotate-replayed token schedule cleanup again cleanup' k m m' issued keyed kept some_left first
        quiet fresh =
      let (parsed, parses, r, _, live, used, in_time) =
        rotate-ok hash_secret config token schedule cleanup m m' issued kept first in
      let stored' : Entry = record { family = r.written; revision = r.stored.revision + 1 } in
      let same : r.written.id ≡ parsed.family_id =
        decide_rotation-id parsed.presented_hash
          (mint_token hash_secret parsed.family_id r.at.secret) r.at.now config.ttl_ms
          config.max_chain_length r.stored.family r.written (ap proposed r.decided)
        ∙ read-Keyed r.at.read_at parsed.family_id (perform_all r.before m) r.stored
            (IsKeyed-perform_all r.before m keyed) r.found in
      let (ends, under) = issued_from-fields _ r.written issued r.issued_from in
      let replayed = verdict-replayed parsed (again k) r.written live used in
      let run =
        rotate-quiet token again cleanup' k m' parsed stored' some_left quiet parses
          (ap (λ id. lookup id m') (sym same) ∙ r.left) same (omega (arith, ends)) in
      let revoked = revoke r.written (again k).now RevocationReason.reuse_detected in
      let entry : Entry = record { family = revoked; revision = r.stored.revision + 1 + 1 } in
      (
        map_set m' r.written.id entry,
        entry,
        run
            ∙ ap
                (λ d.
                  carry_out (mint_token hash_secret parsed.family_id (again k).secret).token stored'
                    d m')
                replayed,
        ap (λ id. lookup id (map_set m' r.written.id entry)) under
            ∙ ground (
              arith,
              lookup-map_set m' r.written.id r.written.id entry,
              str_eq_refl r.written.id,
            ),
        revoke-ends r.written (again k).now RevocationReason.reuse_detected,
      )
