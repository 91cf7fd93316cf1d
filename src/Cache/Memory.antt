-- ===== src/Cache/Memory.antt =====
-- packages/cache-kit/src/backends/memory.ts: the cache in memory, least recently used first out. The
-- store lists its entries from the least to the most recently used one.
pub mod Tags
pub mod Indexed
pub mod Bound
pub mod Requests
use first_principles.Base.Maps.{map_set, map_delete}
use first_principles.Base.{
  ℕ, ◌+◌, String, Bool, true, false, not, Option, none, some, List, [], ◌∷◌, ◌++◌, if◌then◌else◌,
  leb, ltb, length, filter, includes, lookup, str_eq,
}

pub record MemoryEntry {ℓ} (V : Type ℓ) : Type ℓ where
  pub value : V
  pub expires_at : Option ℕ
  pub tags : List String

abbrev pub Index : Type 0
Index = List (String × List String)

pub record Backend {ℓ} (V : Type ℓ) : Type ℓ where
  pub store : List (String × MemoryEntry V)
  pub tag_index : Index

pub record SetOptions : Type 0 where
  pub ttl_ms : Option ℕ
  pub tags : List String

-- `Set.prototype.add` and `delete`.
unfoldable pub set_add : String → List String → List String
set_add key members = if includes members key then members else members ++ key ∷ []

unfoldable pub set_delete : String → List String → List String
set_delete key members = filter (λ member. not (str_eq member key)) members

abbrev put_members : String → List String → Index → Index
put_members tag [] index = map_delete index tag
put_members tag (member ∷ members) index = map_set index tag (member ∷ members)

-- One round of the loop of `untag`, and of that of `set`.
unfoldable pub untag_one : String → String → Index → Index
untag_one key tag index = elim (lookup tag index) [
  | none ↦ index
  | some members ↦ put_members tag (set_delete key members) index
]

unfoldable pub untag : String → List String → Index → Index
untag key [] index = index
untag key (tag ∷ tags) index = untag key tags (untag_one key tag index)

unfoldable pub tag_one : String → String → Index → Index
tag_one key tag index = elim (lookup tag index) [
  | none ↦ map_set index tag (key ∷ [])
  | some members ↦ map_set index tag (set_add key members)
]

unfoldable pub tag_all : String → List String → Index → Index
tag_all key [] index = index
tag_all key (tag ∷ tags) index = tag_all key tags (tag_one key tag index)

abbrev expiry_of : ℕ → Option ℕ → Option ℕ
expiry_of now none = none
expiry_of now (some ttl_ms) = some (now + ttl_ms)

module _ {ℓ} {V : Type ℓ} where
  unfoldable pub is_expired : ℕ → MemoryEntry V → Bool
  is_expired now entry = elim entry.expires_at [ none ↦ false | some at ↦ leb at now ]

  unfoldable pub remove_key : String → Backend V → Backend V
  remove_key key c = elim (lookup key c.store) [
    | none ↦ c
    | some entry ↦ record {
      store = map_delete c.store key;
      tag_index = untag key entry.tags c.tag_index;
    }
  ]

  unfoldable pub touch : String → MemoryEntry V → Backend V → Backend V
  touch key entry c = record c { store = map_set (map_delete c.store key) key entry }

  -- `get`; `none` is a miss.
  unfoldable pub get : ℕ → String → Backend V → Option V × Backend V
  get now key c = elim (lookup key c.store) [
    | none ↦ (none, c)
    | some entry ↦
        if is_expired now entry
        then (none, remove_key key c)
        else (some entry.value, touch key entry c)
  ]

  abbrev pub entry_of : ℕ → V → SetOptions → MemoryEntry V
  entry_of now value options = record {
    value = value;
    expires_at = expiry_of now options.ttl_ms;
    tags = options.tags;
  }

  -- What `set` does before it looks at the size.
  unfoldable pub put : String → MemoryEntry V → Backend V → Backend V
  put key entry c = record {
    store = map_set c.store key entry;
    tag_index = tag_all key entry.tags c.tag_index;
  }

  -- Past the size the first key goes.
  abbrev evict_first : List (String × MemoryEntry V) → Backend V → Backend V
  evict_first [] c = c
  evict_first ((oldest, entry) ∷ rest) c = remove_key oldest c

  unfoldable pub evict : ℕ → Backend V → Backend V
  evict max_entries c = if ltb max_entries (length c.store) then evict_first c.store c else c

  unfoldable pub set : ℕ → ℕ → String → V → SetOptions → Backend V → Backend V
  set max_entries now key value options c =
      evict max_entries (put key (entry_of now value options) (remove_key key c))

  unfoldable pub delete : String → Backend V → Backend V
  delete key c = remove_key key c

  unfoldable pub remove_all : List String → Backend V → Backend V
  remove_all [] c = c
  remove_all (key ∷ keys) c = remove_all keys (remove_key key c)

  unfoldable pub invalidate_tag : String → Backend V → Backend V
  invalidate_tag tag c = elim (lookup tag c.tag_index) [
    | none ↦ c
    | some members ↦ remove_all members c
  ]
