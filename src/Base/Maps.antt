-- ===== src/Base/Maps.antt =====
-- A JavaScript `Map` with string keys, as the list of its entries in insertion order.
use mathlib.Core.Path.{◌≡◌, refl}
use mathlib.Core.Option.{none, some}
use mathlib.Core.List.{List, [], ◌∷◌}
use native.Mathlib.Omega.{arith}
use Prim.Native.String.{String}
use first_principles.Base.Tests.{if◌then◌else◌, str_eq, str_eq_iff}
use first_principles.Base.Lists.{lookup}

-- `Map.prototype.set`: a key that is there keeps its place.
unfoldable pub map_set {ℓ} : {V : Type ℓ} → List (String × V) → String → V → List (String × V)
map_set [] key v = (key, v) ∷ []
map_set ((k, w) ∷ m) key v = if str_eq k key then (k, v) ∷ m else (k, w) ∷ map_set m key v

-- `Map.prototype.delete`
unfoldable pub map_delete {ℓ} : {V : Type ℓ} → List (String × V) → String → List (String × V)
map_delete [] key = []
map_delete ((k, w) ∷ m) key = if str_eq k key then map_delete m key else (k, w) ∷ map_delete m key

pub lookup-map_set {ℓ} :
    {V : Type ℓ} (m : List (String × V)) (k j : String) (v : V)
    → lookup j (map_set m k v) ≡ (if str_eq k j then some v else lookup j m)
unfolding map_set
lookup-map_set [] k j v = refl
lookup-map_set ((i, w) ∷ m) k j v =
    ground (arith, str_eq_iff k j, str_eq_iff i k, str_eq_iff i j, lookup-map_set m k j v)

pub lookup-map_delete {ℓ} :
    {V : Type ℓ} (m : List (String × V)) (k j : String)
    → lookup j (map_delete m k) ≡ (if str_eq k j then none else lookup j m)
unfolding map_delete
lookup-map_delete [] k j = ground arith
lookup-map_delete ((i, w) ∷ m) k j =
    ground (arith, str_eq_iff k j, str_eq_iff i k, str_eq_iff i j, lookup-map_delete m k j)
