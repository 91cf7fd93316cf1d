-- ===== src/Auth/Refresh/Chain.antt =====
-- A token that was issued can be rotated.
use first_principles.Base.Maps.{lookup-map_set}
use first_principles.Base.{
  ◌≡◌, refl, sym, ap, ◌∙◌, inl, inr, ℕ, suc, ◌+◌, ◌<◌, String, true, false, some, [], ◌∷◌, lookup,
  min, arith, str_eq_refl,
}
use first_principles.Base.Texts.{size}
use first_principles.Auth.Token.{
  ParsedToken, mint_token, parse_token, hashes_match, contains, separator,
}
use first_principles.Auth.Token.RoundTrip.{parse_token-mint_token}
use first_principles.Auth.Family.{
  TokenFamily, rotated, was_used, decide_rotation, rotate_current, keep_last,
}
use first_principles.Auth.Store.{Entry, Families, live, create}
use first_principles.Auth.Store.Runs.{Won-cases, Read-cases}
use first_principles.Auth.Refresh.{
  IssuedRefreshToken, Config, ok, Attempt, new_family, issue, rotate,
}
use first_principles.Auth.Refresh.Settled.{IsQuiet, carry_out}
use first_principles.Auth.Refresh.Quiet.{verdict, rotate-quiet}

lookup-create :
    (now : ℕ) (f : TokenFamily) (m m' : Families)
    → create now f m ≡ (true, m')
    → lookup f.id m' ≡ some (record { family = f; revision = 1 })
unfolding create
lookup-create now f m m' h =
    let entry : Entry = record { family = f; revision = 1 } in
    elim (Read-cases (live now f.id m)) [
      | inr (e, n, found) ↦ absurd (ground (arith, found))
      | inl (n, absent) ↦ ground (arith, absent, lookup-map_set n f.id f.id entry, str_eq_refl f.id)
    ]

module _ (hash_secret : String → String) (config : Config) where
  issue-ok :
      (subject family_id secret : String) (now store_now : ℕ) (m m' : Families)
      (issued : IssuedRefreshToken)
      → issue hash_secret config subject family_id secret now store_now m ≡ (ok issued, m')
      → (issued.token ≡ (mint_token hash_secret family_id secret).token)
        × (issued.family_id ≡ family_id)
        × (issued.subject ≡ subject)
        × (issued.expires_at ≡ min (now + config.ttl_ms) (now + config.absolute_ttl_ms))
        × (issued.family_expires_at ≡ now + config.absolute_ttl_ms)
        × (lookup family_id m'
            ≡ some (record {
              family = new_family hash_secret config family_id subject secret now;
              revision = 1;
            }))
  unfolding issue
  issue-ok subject family_id secret now store_now m m' issued h =
      let f = new_family hash_secret config family_id subject secret now in
      elim (Won-cases (create store_now f m)) [
        | inr (n, e) ↦ absurd (ground (arith, e))
        | inl (n, e) ↦
            let stored = lookup-create store_now f m n e in
            (
              ground (arith, e),
              ground (arith, e),
              ground (arith, e),
              ground (arith, e),
              ground (arith, e),
              ap (lookup family_id) (ground (arith, e)) ∙ stored,
            )
      ]

  rotated_family : TokenFamily → ParsedToken → Attempt → TokenFamily
  rotated_family f parsed at = record f {
    current = some (record {
      hash = (mint_token hash_secret parsed.family_id at.secret).hash;
      issued_at = at.now;
      expires_at = min (at.now + config.ttl_ms) f.absolute_expires_at;
    });
    used_hashes = keep_last config.max_chain_length (parsed.presented_hash ∷ []);
  }

  verdict-new :
      (subject family_id secret : String) (now : ℕ) (at : Attempt)
      → at.now < min (now + config.ttl_ms) (now + config.absolute_ttl_ms)
      → let f = new_family hash_secret config family_id subject secret now in
        let parsed : ParsedToken = record {
          family_id = family_id;
          presented_hash = (mint_token hash_secret family_id secret).hash;
        } in
        verdict hash_secret config parsed at f ≡ rotated (rotated_family f parsed at)
  unfolding decide_rotation rotate_current was_used hashes_match rotated_family
  verdict-new subject family_id secret now at fresh =
      ground (arith, str_eq_refl (mint_token hash_secret family_id secret).hash)

  -- A token that was issued, for an id and a secret as the service draws them, is rotated while it is
  -- valid and its family has not reached its end, when at least one attempt is made and nobody else acts
  -- in the first: the new token is of the same family and subject.
  pub issue-rotate :
      (subject family_id secret : String) (now store_now : ℕ) (m m' : Families)
      (issued : IssuedRefreshToken) (schedule cleanup : ℕ → Attempt) (k : ℕ)
      → 0 < size family_id
      → 0 < size secret
      → contains separator family_id ≡ false
      → contains separator secret ≡ false
      → issue hash_secret config subject family_id secret now store_now m ≡ (ok issued, m')
      → config.max_retries ≡ suc k
      → IsQuiet (schedule k)
      → (schedule k).read_at < issued.family_expires_at
      → (schedule k).now < issued.expires_at
      → (next : IssuedRefreshToken) × (m'' : Families) × (rotate hash_secret config issued.token
            schedule cleanup m'
          ≡ (ok next, m''))
        × (next.family_id ≡ issued.family_id)
        × (next.subject ≡ issued.subject)
        × (next.family_expires_at ≡ issued.family_expires_at)
  unfolding rotated_family
  issue-rotate subject family_id secret now store_now m m' issued schedule cleanup k named drawn
        clean clean' first some_left quiet fresh valid =
      let (token, of_family, of_subject, ends, family_ends, stored) =
        issue-ok subject family_id secret now store_now m m' issued first in
      let parsed : ParsedToken = record {
        family_id = family_id;
        presented_hash = (mint_token hash_secret family_id secret).hash;
      } in
      let f = new_family hash_secret config family_id subject secret now in
      let entry : Entry = record { family = f; revision = 1 } in
      let minted = mint_token hash_secret family_id (schedule k).secret in
      let run =
        rotate-quiet hash_secret config issued.token schedule cleanup k m' parsed entry some_left
          quiet
          (ap (parse_token hash_secret) token
            ∙ parse_token-mint_token hash_secret family_id secret named drawn clean clean')
          stored refl (omega (arith, family_ends)) in
      let decided = verdict-new subject family_id secret now (schedule k) (omega (arith, ends)) in
      (
        record {
          token = minted.token;
          family_id = family_id;
          subject = subject;
          expires_at = min ((schedule k).now + config.ttl_ms) (now + config.absolute_ttl_ms);
          family_expires_at = now + config.absolute_ttl_ms;
        },
        (carry_out minted.token entry (rotated (rotated_family f parsed (schedule k))) m').1,
        run ∙ ap (λ d. carry_out minted.token entry d m') decided,
        sym of_family,
        sym of_subject,
        sym family_ends,
      )
