-- ===== src/Auth/Store/Keyed.antt =====
-- Every family stands in the store under its own id.
use first_principles.Base.Maps.{map_delete, lookup-map_set, lookup-map_delete}
use first_principles.Base.{
  ◌≡◌, inl, inr, ℕ, ◌+◌, String, some, List, [], ◌∷◌, lookup, str_eq_iff, arith, Option-cases,
}
use first_principles.Auth.Store.{
  Entry, Families, live, read, create, compare_and_set, delete, Operation, reads, creates, sets,
  deletes, perform, perform_all,
}

abbrev pub IsKeyed : Families → Type 0
IsKeyed m = (id : String) (e : Entry) → lookup id m ≡ some e → e.family.id ≡ id

IsKeyed-perform : (op : Operation) (m : Families) → IsKeyed m → IsKeyed (perform op m)
unfolding perform read live create compare_and_set delete
IsKeyed-perform (reads now k) m h id e found =
    ground (arith, lookup-map_delete m k id, str_eq_iff k id, h id e)
IsKeyed-perform (creates now f) m h id e found =
    let entry : Entry = record { family = f; revision = 1 } in
    ground (
      arith,
      lookup-map_delete m f.id id,
      lookup-map_set m f.id id entry,
      lookup-map_set (map_delete m f.id) f.id id entry,
      str_eq_iff f.id id,
      h id e,
    )
IsKeyed-perform (sets f n) m h id e found = elim (Option-cases (lookup f.id m)) [
  | inl gone ↦ ground (arith, h id e)
  | inr (old, here) ↦ ground (
    arith,
    lookup-map_set m f.id id (record { family = f; revision = old.revision + 1 }),
    str_eq_iff f.id id,
    h id e,
  )
]
IsKeyed-perform (deletes k) m h id e found = ground (arith, lookup-map_delete m k id, h id e)

-- Whatever operations come, every family stays under its own id.
pub IsKeyed-perform_all :
    (ops : List Operation) (m : Families) → IsKeyed m → IsKeyed (perform_all ops m)
unfolding perform_all
IsKeyed-perform_all [] m h = h
IsKeyed-perform_all (op ∷ ops) m h = IsKeyed-perform_all ops (perform op m) (IsKeyed-perform op m h)

-- A family that a read of such a store returns has the id it was asked for.
pub read-Keyed :
    (now : ℕ) (id : String) (m : Families) (e : Entry)
    → IsKeyed m
    → (read now id m).0 ≡ some e
    → e.family.id ≡ id
unfolding read live
read-Keyed now id m e h found = elim (Option-cases (lookup id m)) [
  | inl gone ↦ absurd (ground arith)
  | inr (old, here) ↦ ground (arith, h id old)
]
