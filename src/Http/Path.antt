-- ===== src/Http/Path.antt =====
-- packages/http-client/src/internal/path.ts: how a base URL and a path are joined.
pub mod Joined
use Prim.Native.String
use first_principles.Base.Texts.{size, slice_to}
use first_principles.Base.{ℕ, zero, suc, String, code, Bool, true, false, ◌==◌, if◌then◌else◌}

-- `/`
abbrev pub slash : ℕ
slash = 47

-- `value.charCodeAt(i) === 47`
unfoldable pub slash_at : String → ℕ → Bool
slash_at String.[] i = false
slash_at (String.◌∷◌ c s) zero = code c == slash
slash_at (String.◌∷◌ c s) (suc i) = slash_at s i

-- The loop that moves `end` back.
unfoldable pub trim_end : String → ℕ → ℕ
trim_end value zero = 0
trim_end value (suc e) = let less = trim_end value e in if slash_at value e then less else suc e

unfoldable pub strip_trailing_slashes : String → String
strip_trailing_slashes value = slice_to (trim_end value (size value)) value

unfoldable pub join_url : String → String → String
join_url base_url path =
    String.◌++◌ (strip_trailing_slashes base_url)
      (if slash_at path 0 then path else String.◌++◌ "/" path)
