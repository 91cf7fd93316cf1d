-- ===== src/Auth/Refresh/Rotate.antt =====
-- What a successful rotation leaves in the store, and what the same token gets after it.
use mathlib.Core.List.{append_assoc}
use first_principles.Base.{
  ◌≡◌, refl, sym, ◌<◌, ◌-◌, ap, ◌∙◌, inl, inr, ℕ, zero, suc, ◌+◌, ◌≤◌, String, Bool, true, false,
  ◌||◌, Option, none, some, List, [], ◌∷◌, ◌++◌, lookup, arith, Option-cases,
}
use first_principles.Auth.Token.{ParsedToken, mint_token, parse_token}
use first_principles.Auth.Family.{
  TokenFamily, FamilyToken, rotated, is_revoked, was_used, decide_rotation, rotate_current,
}
use first_principles.Auth.Store.{Entry, Families, read, Operation, reads, sets, perform_all}
use first_principles.Auth.Store.Once.{lookup-compare_and_set}
use first_principles.Auth.Family.Invariant.{expiry}
use first_principles.Auth.Family.Window.{Presentation, decide-eq-rotated, was_used_of_rotated}
use first_principles.Auth.Store.Runs.{
  Read-cases, perform_all-append, perform_all-read, perform_all-written,
}
use first_principles.Auth.Refresh.Attempts.{Step-cases, write_decision-ok, write_decision-lost}
use first_principles.Auth.Refresh.{
  IssuedRefreshToken, Config, ok, Attempt, settled, lost_race, issued_from, write_decision,
  decide_on, attempt_rotation, LoopEnd, returned, exhausted, rotate_loop, conclude_rotation, rotate,
}

module _ (hash_secret : String → String) (config : Config) where
  -- How a rotation went: after the operations of others, the family was read and decided on, others went
  -- on, and the decision was written at the revision that had been read.
  pub record Rotated (parsed : ParsedToken) (issued : IssuedRefreshToken) (m m' : Families)
      : Type 0 where
    pub at : Attempt
    pub before : List Operation
    pub stored : Entry
    pub written : TokenFamily
    pub found : (read at.read_at parsed.family_id (perform_all before m)).0 ≡ some stored
    pub decided :
        decide_rotation parsed.presented_hash
          (mint_token hash_secret parsed.family_id at.secret)
          at.now
          config.ttl_ms
          config.max_chain_length
          stored.family
        ≡ rotated written
    pub effect :
        m'
        ≡ perform_all
            (before
              ++ reads at.read_at parsed.family_id
                ∷ (at.between ++ sets written stored.revision ∷ []))
            m
    pub left :
        lookup written.id m' ≡ some (record { family = written; revision = stored.revision + 1 })
    pub issued_from :
        issued_from (mint_token hash_secret parsed.family_id at.secret).token written ≡ ok issued

  -- What is done to the store before the last of `lost` lost attempts returns, the first of which leaves
  -- `left - 1` more: what others do, and the reads of the attempts.
  abbrev pub lost_operations : String → (ℕ → Attempt) → ℕ → ℕ → List Operation
  lost_operations id schedule left zero = []
  lost_operations id schedule zero (suc lost) = []
  lost_operations id schedule (suc left) (suc lost) =
      let at = schedule left in
      at.before ++ (reads at.read_at id ∷ at.between) ++ lost_operations id schedule left lost

  -- The attempt that succeeded is one of the schedule's, and what happened before its read is what the
  -- schedule has up to there.
  pub record Scheduled (parsed : ParsedToken) (schedule : ℕ → Attempt) (left : ℕ)
      (ops : List Operation) (at : Attempt) (before : List Operation) : Type 0 where
    pub lost : ℕ
    pub some_left : lost < left
    pub which : at ≡ schedule (left - suc lost)
    pub earlier : before ≡ ops ++ (lost_operations parsed.family_id schedule left lost ++ at.before)

  module _ (parsed : ParsedToken) (schedule : ℕ → Attempt) (left : ℕ) (ops : List Operation)
      (at : Attempt) (before : List Operation) where
    first-Scheduled :
        at ≡ schedule left
        → before ≡ ops ++ (let first = schedule left in first.before)
        → Scheduled parsed schedule (suc left) ops at before
    first-Scheduled same_at same_before = record {
      lost = 0;
      some_left = omega arith;
      which = same_at ∙ ap schedule (omega arith);
      earlier = same_before ∙ ap (λ (a : Attempt). ops ++ a.before) (sym same_at);
    }

    later-Scheduled :
        (let first = schedule left in
          Scheduled parsed schedule left
            ((ops ++ first.before) ++ reads first.read_at parsed.family_id ∷ first.between)
            at
            before)
        → Scheduled parsed schedule (suc left) ops at before
    later-Scheduled s =
        let first = schedule left in
        let mine = reads first.read_at parsed.family_id ∷ first.between in
        let others = lost_operations parsed.family_id schedule left s.lost in
        let one : (ops ++ first.before) ++ mine ≡ ops ++ (first.before ++ mine) =
          append_assoc ops first.before mine in
        record {
          lost = suc s.lost;
          some_left = omega (arith, s.some_left);
          which = s.which ∙ ap schedule (omega arith);
          earlier =
              s.earlier
              ∙ (ap (λ l. l ++ (others ++ at.before)) one
                  ∙ (append_assoc ops (first.before ++ mine) (others ++ at.before)
                      ∙ ap (λ l. ops ++ l)
                          (sym (append_assoc (first.before ++ mine) others at.before))));
        }

  attempt-ok :
      (parsed : ParsedToken) (at : Attempt) (ops : List Operation) (m m' : Families)
      (issued : IssuedRefreshToken)
      → attempt_rotation hash_secret config parsed at (perform_all ops m)
        ≡ (settled (ok issued), m')
      → (r : Rotated parsed issued m m') × (r.at ≡ at) × (r.before ≡ ops ++ at.before)
  unfolding attempt_rotation
  attempt-ok parsed at ops m m' issued h =
      let seen = perform_all (ops ++ at.before) m in
      let start = perform_all-append ops at.before m in
      elim (Read-cases (read at.read_at parsed.family_id seen)) [
        | inl (n, e) ↦ absurd (ground (arith, e, start))
        | inr (stored, n, e) ↦
            let minted = mint_token hash_secret parsed.family_id at.secret in
            let stepped : attempt_rotation hash_secret config parsed at (perform_all ops m)
                ≡ write_decision
                    (decide_rotation parsed.presented_hash minted at.now config.ttl_ms
                      config.max_chain_length stored.family)
                    minted.token stored.revision at.between n =
              ap (λ k. decide_on hash_secret config parsed at (read at.read_at parsed.family_id k))
                (sym start)
              ∙ ap (decide_on hash_secret config parsed at) e in
            let (g, decided, issues, won) =
              write_decision-ok
                (decide_rotation parsed.presented_hash minted at.now config.ttl_ms
                  config.max_chain_length stored.family)
                minted.token stored n m' issued at (sym stepped ∙ h) in
            (
              record {
                at = at;
                before = ops ++ at.before;
                stored = stored;
                written = g;
                found = ap (λ r. r.0) e;
                decided = decided;
                effect =
                    perform_all-written g stored.revision at.read_at parsed.family_id
                      (ops ++ at.before) at.between (some stored) true m n m' e won;
                left = lookup-compare_and_set g stored.revision _ m' won;
                issued_from = issues;
              },
              refl,
              refl,
            )
      ]

  attempt-lost :
      (parsed : ParsedToken) (at : Attempt) (ops : List Operation) (m m' : Families)
      (reused_it : Bool)
      → attempt_rotation hash_secret config parsed at (perform_all ops m)
        ≡ (lost_race reused_it, m')
      → m' ≡ perform_all ((ops ++ at.before) ++ reads at.read_at parsed.family_id ∷ at.between) m
  unfolding attempt_rotation
  attempt-lost parsed at ops m m' reused_it h =
      let seen = perform_all (ops ++ at.before) m in
      let start = perform_all-append ops at.before m in
      elim (Read-cases (read at.read_at parsed.family_id seen)) [
        | inl (n, e) ↦ absurd (ground (arith, e, start))
        | inr (stored, n, e) ↦
            let minted = mint_token hash_secret parsed.family_id at.secret in
            let decision =
              decide_rotation parsed.presented_hash minted at.now config.ttl_ms
                config.max_chain_length stored.family in
            let stepped : attempt_rotation hash_secret config parsed at (perform_all ops m)
                ≡ write_decision decision minted.token stored.revision at.between n =
              ap (λ k. decide_on hash_secret config parsed at (read at.read_at parsed.family_id k))
                (sym start)
              ∙ ap (decide_on hash_secret config parsed at) e in
            write_decision-lost decision minted.token stored.revision at.between n m' reused_it
              (sym stepped ∙ h)
            ∙ sym (
                perform_all-read at.read_at parsed.family_id (ops ++ at.before) at.between
                  (some stored) m n e)
      ]

  rotate_loop-ok :
      (parsed : ParsedToken) (schedule : ℕ → Attempt) (left : ℕ) (saw_reuse : Bool)
      (ops : List Operation) (m m' : Families) (issued : IssuedRefreshToken)
      → rotate_loop hash_secret config parsed schedule left saw_reuse (perform_all ops m)
        ≡ (returned (ok issued), m')
      → (r : Rotated parsed issued m m') × Scheduled parsed schedule left ops r.at r.before
  unfolding rotate_loop
  rotate_loop-ok parsed schedule zero saw_reuse ops m m' issued h = absurd (ground arith)
  rotate_loop-ok parsed schedule (suc left) saw_reuse ops m m' issued h =
      elim (Step-cases
        (attempt_rotation hash_secret config parsed (schedule left) (perform_all ops m))) [
          | inl (outcome, n, e) ↦
              let (r, same_at, same_before) =
                attempt-ok parsed (schedule left) ops m m' issued (ground (arith, e)) in
              (r, first-Scheduled parsed schedule left ops r.at r.before same_at same_before)
          | inr (reused_it, n, e) ↦
              let at = schedule left in
              let more = (ops ++ at.before) ++ reads at.read_at parsed.family_id ∷ at.between in
              let same = attempt-lost parsed at ops m n reused_it e in
              let (r, s) =
                rotate_loop-ok parsed schedule left (saw_reuse || reused_it) more m m' issued (
                  ap (rotate_loop hash_secret config parsed schedule left (saw_reuse || reused_it))
                    (sym same)
                  ∙ ground (arith, e)) in
              (r, later-Scheduled parsed schedule left ops r.at r.before s)
        ]

  conclude_rotation-ok :
      (parsed : ParsedToken) (cleanup : ℕ → Attempt) (p : LoopEnd × Families)
      (issued : IssuedRefreshToken) (m' : Families)
      → conclude_rotation hash_secret config parsed cleanup p ≡ (ok issued, m')
      → p ≡ (returned (ok issued), m')
  conclude_rotation-ok parsed cleanup (returned outcome, m) issued m' h = ground arith
  conclude_rotation-ok parsed cleanup (exhausted false, m) issued m' h = absurd (ground arith)
  conclude_rotation-ok parsed cleanup (exhausted true, m) issued m' h = absurd (ground arith)

  rotate_current-in_time :
      (p : Presentation) (f g : TokenFamily) (current : Option FamilyToken)
      → rotate_current p.presented p.minted p.now config.ttl_ms config.max_chain_length f current
        ≡ rotated g
      → expiry g.current ≤ g.absolute_expires_at
  unfolding rotate_current
  rotate_current-in_time p f g none h = absurd (ground arith)
  rotate_current-in_time p f g (some c) h = ground arith

  decide_rotation-in_time :
      (p : Presentation) (f g : TokenFamily)
      → decide_rotation p.presented p.minted p.now config.ttl_ms config.max_chain_length f
        ≡ rotated g
      → expiry g.current ≤ g.absolute_expires_at
  unfolding decide_rotation
  decide_rotation-in_time p f g h = ground (arith, rotate_current-in_time p f g f.current)

  issued_from-in_time :
      (p : Presentation) (f g : TokenFamily) (token : String) (issued : IssuedRefreshToken)
      → decide_rotation p.presented p.minted p.now config.ttl_ms config.max_chain_length f
        ≡ rotated g
      → issued_from token g ≡ ok issued
      → issued.expires_at ≤ issued.family_expires_at
  issued_from-in_time p f g token issued h e = elim (Option-cases g.current) [
    | inl c ↦ absurd (ground (arith, c))
    | inr (current, c) ↦ ground (arith, c, decide_rotation-in_time p f g h)
  ]

  -- A rotation that succeeds does so in an attempt of its schedule, after fewer lost ones than it has
  -- attempts, and leaves the store as after these operations and no others, in this order: what others do
  -- before and within the lost attempts, and the reads of these; what others do before the attempt, its read,
  -- what others do then, and its write, at the revision that was read. It was decided on the family read. The store then holds the new family at the next
  -- revision, not revoked; the presented token is used there; and the new token ends no later than the
  -- family. At least one digest is to be kept.
  pub rotate-ok :
      (token : String) (schedule cleanup : ℕ → Attempt) (m m' : Families)
      (issued : IssuedRefreshToken)
      → 1 ≤ config.max_chain_length
      → rotate hash_secret config token schedule cleanup m ≡ (ok issued, m')
      → (parsed : ParsedToken) × (parse_token hash_secret token ≡ some parsed)
        × (r : Rotated parsed issued m m') × Scheduled parsed schedule config.max_retries [] r.at
            r.before
        × (is_revoked r.written ≡ false)
        × (was_used r.written parsed.presented_hash ≡ true)
        × (issued.expires_at ≤ issued.family_expires_at)
  unfolding rotate perform_all
  rotate-ok token schedule cleanup m m' issued some_kept h =
      elim (Option-cases (parse_token hash_secret token)) [
        | inl e ↦ absurd (ground (arith, e))
        | inr (parsed, e) ↦
            let (r, scheduled) =
              rotate_loop-ok parsed schedule config.max_retries false [] m m' issued
                (conclude_rotation-ok parsed cleanup _ issued m' (ground (arith, e))) in
            let p : Presentation = record {
              presented = parsed.presented_hash;
              minted = mint_token hash_secret parsed.family_id r.at.secret;
              now = r.at.now;
            } in
            (
              parsed,
              e,
              r,
              scheduled,
              (decide-eq-rotated config.ttl_ms config.max_chain_length p r.stored.family r.written
                  r.decided).1,
              was_used_of_rotated config.ttl_ms config.max_chain_length p r.stored.family r.written
                  some_kept r.decided,
              issued_from-in_time p r.stored.family r.written _ issued r.decided r.issued_from,
            )
      ]
