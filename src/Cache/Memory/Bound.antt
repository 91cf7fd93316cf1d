-- ===== src/Cache/Memory/Bound.antt =====
-- The cache holds at most `maxEntries` entries, and what was just set is among them.
use first_principles.Base.Maps.{map_set, map_delete}
use first_principles.Base.{
  ◌≡◌, refl, ap, ◌∙◌, inl, inr, ℕ, suc, ◌≤◌, ◌<◌, String, some, List, [], ◌∷◌, length, lookup,
  str_eq_refl, arith, Option-cases,
}
use first_principles.Cache.Memory.{
  MemoryEntry, Backend, SetOptions, remove_key, touch, get, entry_of, put, evict, evict_first, set,
  remove_all, invalidate_tag,
}

module _ {ℓ} {V : Type ℓ} where
  abbrev pub size : Backend V → ℕ
  size c = length c.store

  length-map_delete :
      (m : List (String × MemoryEntry V)) (k : String) → length (map_delete m k) ≤ length m
  unfolding map_delete
  length-map_delete [] k = omega arith
  length-map_delete ((j, v) ∷ m) k = ground (arith, length-map_delete m k)

  length-map_delete-found :
      (m : List (String × MemoryEntry V)) (k : String) (e : MemoryEntry V)
      → lookup k m ≡ some e
      → length (map_delete m k) < length m
  unfolding map_delete
  length-map_delete-found [] k e h = absurd (ground arith)
  length-map_delete-found ((j, v) ∷ m) k e h =
      ground (arith, length-map_delete m k, length-map_delete-found m k e)

  length-map_set :
      (m : List (String × MemoryEntry V)) (k : String) (e : MemoryEntry V)
      → length (map_set m k e) ≤ suc (length m)
  unfolding map_set
  length-map_set [] k e = omega arith
  length-map_set ((j, v) ∷ m) k e = ground (arith, length-map_set m k e)

  pub size-remove_key : (key : String) (c : Backend V) → size (remove_key key c) ≤ size c
  unfolding remove_key
  size-remove_key key c = elim (Option-cases (lookup key c.store)) [
    | inl gone ↦ ground arith
    | inr (entry, found) ↦ ground (arith, length-map_delete c.store key)
  ]

  size-remove_key-found :
      (key : String) (c : Backend V) (e : MemoryEntry V)
      → lookup key c.store ≡ some e
      → size (remove_key key c) < size c
  unfolding remove_key
  size-remove_key-found key c e found = ground (arith, length-map_delete-found c.store key e)

  -- Eviction makes room for one.
  size-evict_first :
      (store : List (String × MemoryEntry V)) (c : Backend V)
      → c.store ≡ store
      → 1 ≤ length store
      → size (evict_first store c) < length store
  size-evict_first [] c same some_stored = absurd (omega arith)
  size-evict_first ((oldest, entry) ∷ rest) c same some_stored =
      let found : lookup oldest c.store ≡ some entry =
        ap (lookup oldest) same ∙ ground (arith, str_eq_refl oldest) in
      ground (arith, size-remove_key-found oldest c entry found, ap length same)

  size-evict :
      (max_entries : ℕ) (c : Backend V)
      → size c ≤ suc max_entries
      → size (evict max_entries c) ≤ max_entries
  unfolding evict
  size-evict max_entries c h = ground (arith, size-evict_first c.store c refl)

  pub size-set :
      (max_entries now : ℕ) (key : String) (value : V) (options : SetOptions) (c : Backend V)
      → size c ≤ max_entries
      → size (set max_entries now key value options c) ≤ max_entries
  unfolding set put
  size-set max_entries now key value options c h =
      let entry = entry_of now value options in
      size-evict max_entries (put key entry (remove_key key c))
        (omega (arith, length-map_set (remove_key key c).store key entry, size-remove_key key c))

  pub size-get : (now : ℕ) (key : String) (c : Backend V) → size (get now key c).1 ≤ size c
  unfolding get touch
  size-get now key c = elim (Option-cases (lookup key c.store)) [
    | inl gone ↦ ground arith
    | inr (entry, found) ↦ ground (
      arith,
      size-remove_key key c,
      length-map_delete-found c.store key entry,
      length-map_set (map_delete c.store key) key entry,
    )
  ]

  pub size-remove_all : (keys : List String) (c : Backend V) → size (remove_all keys c) ≤ size c
  unfolding remove_all
  size-remove_all [] c = omega arith
  size-remove_all (key ∷ keys) c =
      omega (arith, size-remove_all keys (remove_key key c), size-remove_key key c)

  pub size-invalidate_tag : (tag : String) (c : Backend V) → size (invalidate_tag tag c) ≤ size c
  unfolding invalidate_tag
  size-invalidate_tag tag c = elim (Option-cases (lookup tag c.tag_index)) [
    | inl gone ↦ ground arith
    | inr (members, found) ↦ ground (arith, size-remove_all members c)
  ]
