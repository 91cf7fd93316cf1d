-- ===== src/Base/Texts.antt =====
-- Texts by characters.
use Prim.Native.Nat.{ℕ, zero, suc}
use Prim.Native.String.{String}

-- `length` of a string, and `slice` from its start.
unfoldable pub size : String → ℕ
size String.[] = 0
size (String.◌∷◌ c s) = suc (size s)

unfoldable pub slice_to : ℕ → String → String
slice_to zero s = ""
slice_to (suc n) String.[] = ""
slice_to (suc n) (String.◌∷◌ c s) = String.◌∷◌ c (slice_to n s)
