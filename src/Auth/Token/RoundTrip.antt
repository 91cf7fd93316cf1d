-- ===== src/Auth/Token/RoundTrip.antt =====
-- Minting and parsing a token are inverse to one another.
use Prim.Native.String
use text.Mathlib.TextEquality.{Char-path}
use text.Mathlib.TextLemmas.{nil-append, cons-append}
use first_principles.Base.{
  ◌≡◌, refl, sym, ◌∙◌, ap, inl, inr, ℕ, zero, suc, ◌+◌, ◌<◌, String, Char, false, some, arith,
  Option-cases,
}
use first_principles.Base.Texts.{size, slice_to}
use first_principles.Auth.Token.{
  ParsedToken, separator, index_of, slice_from, contains, mint_token, parse_token,
}

abbrev joined : String → String → String
joined f s = String.◌++◌ f (String.◌++◌ "." s)

joined-nil : (s : String) → joined "" s ≡ String.◌∷◌ "." s
joined-nil s = nil-append _ ∙ (cons-append "." "" s ∙ ap (String.◌∷◌ ".") (nil-append s))

joined-cons : (c : Char) (f s : String) → joined (String.◌∷◌ c f) s ≡ String.◌∷◌ c (joined f s)
joined-cons c f s = cons-append c f _

module _ (s : String) where
  index_of-joined :
      (f : String) → contains separator f ≡ false → index_of separator (joined f s) ≡ some (size f)
  unfolding index_of contains size
  index_of-joined String.[] h = rw joined-nil
  index_of-joined (String.◌∷◌ c f) h = rw joined-cons (ground (arith, index_of-joined f))

  size-joined : (f : String) → size (joined f s) ≡ size f + 1 + size s
  unfolding size
  size-joined String.[] = rw joined-nil (omega arith)
  size-joined (String.◌∷◌ c f) = rw joined-cons (omega (arith, size-joined f))

  slice_to-joined : (f : String) → slice_to (size f) (joined f s) ≡ f
  unfolding size slice_to
  slice_to-joined String.[] = refl
  slice_to-joined (String.◌∷◌ c f) = rw (joined-cons, slice_to-joined f)

  slice_from-joined : (f : String) → slice_from (suc (size f)) (joined f s) ≡ s
  unfolding size slice_from
  slice_from-joined String.[] = rw joined-nil
  slice_from-joined (String.◌∷◌ c f) = rw joined-cons (slice_from-joined f)

-- What `index_of` finds: the text before, without the separator, and the text behind it.
index_of-eq-some :
    (t : String) (i : ℕ)
    → index_of separator t ≡ some i
    → (t ≡ joined (slice_to i t) (slice_from (suc i) t))
      × (contains separator (slice_to i t) ≡ false)
      × (size (slice_to i t) ≡ i)
unfolding index_of slice_to slice_from contains size
index_of-eq-some String.[] i h = absurd (ground arith)
index_of-eq-some (String.◌∷◌ c t) zero h =
    (rw joined-nil (ap (λ d. String.◌∷◌ d t) (Char-path c "." (ground arith))), refl, refl)
index_of-eq-some (String.◌∷◌ c t) (suc i) h =
    let (parts, clean, long) = index_of-eq-some t i (ground arith) in
    (rw joined-cons (ap (String.◌∷◌ c) parts), ground arith, ap suc long)

module _ (hash_secret : String → String) where
  -- A token made of an id and a secret that are not empty and hold no separator parses to that id and
  -- the digest of that secret.
  pub parse_token-mint_token :
      (family_id secret : String)
      → 0 < size family_id
      → 0 < size secret
      → contains separator family_id ≡ false
      → contains separator secret ≡ false
      → parse_token hash_secret (mint_token hash_secret family_id secret).token
        ≡ some (record {
          family_id = family_id;
          presented_hash = (mint_token hash_secret family_id secret).hash;
        })
  unfolding parse_token mint_token
  parse_token-mint_token family_id secret pf ps nf ns = ground (
    arith,
    index_of-joined secret family_id nf,
    size-joined secret family_id,
    slice_to-joined secret family_id,
    slice_from-joined secret family_id,
  )

  -- A token that parses is the one minted from the id that it parses to and a secret whose digest is
  -- the one presented; both are not empty and hold no separator.
  pub parse_token-eq-some :
      (token : String) (p : ParsedToken)
      → parse_token hash_secret token ≡ some p
      → (secret : String) × (token ≡ (mint_token hash_secret p.family_id secret).token)
        × (p.presented_hash ≡ hash_secret secret)
        × (0 < size p.family_id)
        × (0 < size secret)
        × (contains separator p.family_id ≡ false)
        × (contains separator secret ≡ false)
  unfolding parse_token mint_token
  parse_token-eq-some token p h = elim (Option-cases (index_of separator token)) [
    | inl e ↦ absurd (ground arith)
    | inr (i, e) ↦
        let (parts, clean, long) = index_of-eq-some token i e in
        let sizes : size token ≡ size (slice_to i token) + 1 + size (slice_from (suc i) token) =
          ap size parts ∙ size-joined (slice_from (suc i) token) (slice_to i token) in
        let same : p.family_id ≡ slice_to i token = ground arith in
        (
          slice_from (suc i) token,
          parts ∙ ap (λ f. joined f (slice_from (suc i) token)) (sym same),
          ground arith,
          ground arith,
          ground arith,
          ground arith,
          ground arith,
        )
  ]
