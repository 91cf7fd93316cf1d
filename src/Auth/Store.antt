-- ===== src/Auth/Store.antt =====
-- packages/auth-utils/src/stores.ts: the refresh-token store in memory. Each operation runs to its end
-- before another begins. `now` is what the store's clock says.
pub mod Runs
pub mod Once
pub mod Keyed
use first_principles.Base.Maps.{map_set, map_delete}
use first_principles.Base.{
  ℕ, ◌+◌, String, Bool, true, false, Option, none, some, List, [], ◌∷◌, if◌then◌else◌, leb, ◌==◌,
  lookup,
}
use first_principles.Auth.Family.{TokenFamily}

pub record Entry : Type 0 where
  pub family : TokenFamily
  pub revision : ℕ

abbrev pub Families : Type 0
Families = List (String × Entry)

-- An entry past its family's end is deleted where it is met.
unfoldable pub live : ℕ → String → Families → Option Entry × Families
live now id m = elim (lookup id m) [
  | none ↦ (none, m)
  | some entry ↦
      if leb entry.family.absolute_expires_at now then (none, map_delete m id) else (some entry, m)
]

unfoldable pub read : ℕ → String → Families → Option Entry × Families
unfolding live
read now id m = live now id m

abbrev put_new : TokenFamily → Option Entry × Families → Bool × Families
put_new family (some entry, m) = (false, m)
put_new family (none, m) = (true, map_set m family.id (record { family = family; revision = 1 }))

unfoldable pub create : ℕ → TokenFamily → Families → Bool × Families
unfolding live
create now family m = put_new family (live now family.id m)

unfoldable pub compare_and_set : TokenFamily → ℕ → Families → Bool × Families
compare_and_set family expected m = elim (lookup family.id m) [
  | none ↦ (false, m)
  | some entry ↦
      if entry.revision == expected
      then (true, map_set m family.id (record { family = family; revision = entry.revision + 1 }))
      else (false, m)
]

unfoldable pub delete : String → Families → Families
delete id m = map_delete m id

-- The operations that other callers make between two steps of one caller.
pub data Operation : Type 0 where
  reads : ℕ → String → Operation
  creates : ℕ → TokenFamily → Operation
  sets : TokenFamily → ℕ → Operation
  deletes : String → Operation

unfoldable pub perform : Operation → Families → Families
perform (reads now id) m = (read now id m).1
perform (creates now family) m = (create now family m).1
perform (sets family expected) m = (compare_and_set family expected m).1
perform (deletes id) m = delete id m

unfoldable pub perform_all : List Operation → Families → Families
perform_all [] m = m
perform_all (op ∷ ops) m = perform_all ops (perform op m)
