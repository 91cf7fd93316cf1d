-- ===== src/Auth/Store/Once.antt =====
-- Of two writes that expect the same revision of a family only the first takes effect.
use first_principles.Base.Maps.{map_delete, lookup-map_set, lookup-map_delete}
use first_principles.Base.{
  ◌≡◌, refl, ◌≢◌, ◌⊎◌, inl, inr, ℕ, ◌+◌, ◌<◌, ◌≤◌, String, true, false, Option, none, some, List,
  [], ◌∷◌, lookup, All, str_eq_iff, str_eq_refl, arith, Option-cases,
}
use first_principles.Auth.Family.{TokenFamily}
use first_principles.Auth.Store.{
  Entry, Families, live, read, create, compare_and_set, delete, Operation, reads, creates, sets,
  deletes, perform, perform_all,
}

-- What became of an entry: it is gone, or as it was, or it was written since.
abbrev pub Since : Entry → Option Entry → Type 0
Since e none = Unit
Since e (some e') =
    ((e'.revision ≡ e.revision) × (e'.family ≡ e.family)) ⊎ (e.revision < e'.revision)

-- Ids are not given twice: the operation does not create a family with this id.
abbrev pub IsFreshOf : String → Operation → Type 0
IsFreshOf id (creates now family) = family.id ≢ id
IsFreshOf id _ = Unit

module _ (id : String) (e : Entry) where
  Since-perform :
      (op : Operation) (m : Families)
      → IsFreshOf id op
      → Since e (lookup id m)
      → Since e (lookup id (perform op m))
  unfolding perform read live create compare_and_set delete
  Since-perform (reads now k) m fresh h = ground (arith, lookup-map_delete m k id, str_eq_iff k id)
  Since-perform (creates now f) m fresh h =
      let entry : Entry = record { family = f; revision = 1 } in
      ground (
        arith,
        lookup-map_delete m f.id id,
        lookup-map_set m f.id id entry,
        lookup-map_set (map_delete m f.id) f.id id entry,
        str_eq_iff f.id id,
      )
  Since-perform (sets f n) m fresh h = elim (Option-cases (lookup f.id m)) [
    | inl gone ↦ ground arith
    | inr (old, found) ↦ ground (
      arith,
      lookup-map_set m f.id id (record { family = f; revision = old.revision + 1 }),
      str_eq_iff f.id id,
    )
  ]
  Since-perform (deletes k) m fresh h = ground (arith, lookup-map_delete m k id)

  pub Since-perform_all :
      (ops : List Operation) (m : Families)
      → All (IsFreshOf id) ops
      → Since e (lookup id m)
      → Since e (lookup id (perform_all ops m))
  unfolding perform_all
  Since-perform_all [] m fresh h = h
  Since-perform_all (op ∷ ops) m fresh h =
      Since-perform_all ops (perform op m) fresh.1 (Since-perform op m fresh.0 h)

-- What a successful write leaves under the family's id.
pub lookup-compare_and_set :
    (g : TokenFamily) (expected : ℕ) (m m' : Families)
    → compare_and_set g expected m ≡ (true, m')
    → lookup g.id m' ≡ some (record { family = g; revision = expected + 1 })
unfolding compare_and_set
lookup-compare_and_set g expected m m' h = elim (Option-cases (lookup g.id m)) [
  | inl gone ↦ absurd (ground arith)
  | inr (old, found) ↦ ground (
    arith,
    lookup-map_set m g.id g.id (record { family = g; revision = old.revision + 1 }),
    str_eq_refl g.id,
  )
]

compare_and_set-stale :
    (h : TokenFamily) (stale : ℕ) (m : Families) (e : Entry)
    → Since e (lookup h.id m)
    → stale < e.revision
    → compare_and_set h stale m ≡ (false, m)
unfolding compare_and_set
compare_and_set-stale h stale m e since old = elim (Option-cases (lookup h.id m)) [
  | inl gone ↦ ground arith
  | inr (entry, found) ↦ ground arith
]

-- Once a write that expected some revision of a family took effect, no other that expects this
-- revision or an earlier one does, whatever operations come between, as long as none of them creates a
-- family with this id again.
pub compare_and_set_once :
    (g h : TokenFamily) (expected stale : ℕ) (m m' : Families) (ops : List Operation)
    → h.id ≡ g.id
    → stale ≤ expected
    → All (IsFreshOf g.id) ops
    → compare_and_set g expected m ≡ (true, m')
    → compare_and_set h stale (perform_all ops m') ≡ (false, perform_all ops m')
unfolding compare_and_set
compare_and_set_once g h expected stale m m' ops same order fresh won =
    let entry : Entry = record { family = g; revision = expected + 1 } in
    let start = lookup-compare_and_set g expected m m' won in
    let after = Since-perform_all g.id entry ops m' fresh (rw start (inl (refl, refl))) in
    compare_and_set-stale h stale (perform_all ops m') entry (rw same after) (omega arith)
