-- ===== src/Auth/Token.antt =====
-- packages/auth-utils/src/internal/token-format.ts: `<family id>.<secret>`. The digest is a parameter
-- (`createHash('sha256')` of node:crypto), and so are the random texts of an id and a secret.
pub mod RoundTrip
use first_principles.Base.Texts.{size, slice_to}
use first_principles.Base.{
  ℕ, zero, suc, String, code, Bool, true, false, ◌||◌, Option, none, some, if◌then◌else◌, ◌==◌, leb,
  str_eq,
}
use Prim.Native.String

pub record MintedToken : Type 0 where
  pub token : String
  pub hash : String

pub record ParsedToken : Type 0 where
  pub family_id : String
  pub presented_hash : String

abbrev pub separator : ℕ
separator = b'.'

-- `indexOf`, `slice` to the end and `includes` of a string, by characters.
unfoldable pub index_of : ℕ → String → Option ℕ
index_of sep String.[] = none
index_of sep (String.◌∷◌ c s) =
    if code c == sep then some 0 else elim (index_of sep s) [ none ↦ none | some i ↦ some (suc i) ]

unfoldable pub slice_from : ℕ → String → String
slice_from zero s = s
slice_from (suc n) String.[] = ""
slice_from (suc n) (String.◌∷◌ c s) = slice_from n s

unfoldable pub contains : ℕ → String → Bool
contains sep String.[] = false
contains sep (String.◌∷◌ c s) = code c == sep || contains sep s

module _ (hash_secret : String → String) where
  unfoldable pub mint_token : String → String → MintedToken
  mint_token family_id secret = record {
    token = String.◌++◌ family_id (String.◌++◌ "." secret);
    hash = hash_secret secret;
  }

  unfoldable pub parse_at : String → Option ℕ → Option ParsedToken
  parse_at token none = none
  parse_at token (some at) =
      if leb at 0 || suc at == size token
      then none
      else (let secret = slice_from (suc at) token in
          if contains separator secret
          then none
          else some (record { family_id = slice_to at token; presented_hash = hash_secret secret }))

  unfoldable pub parse_token : String → Option ParsedToken
  unfolding parse_at
  parse_token token = if size token == 0 then none else parse_at token (index_of separator token)

-- `timingSafeEqual` on the bytes of two texts of equal length.
unfoldable pub hashes_match : String → String → Bool
hashes_match a b = str_eq a b
