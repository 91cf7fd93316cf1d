-- ===== src/Cache/Memory/Requests.antt =====
-- The cache in memory under any sequence of calls: its size and its index stay sound, and what was set
-- is what is read until it expires.
use first_principles.Base.Maps.{map_set, lookup-map_set}
use first_principles.Base.{
  ◌≡◌, ◌∙◌, ℕ, ◌+◌, ◌≤◌, String, none, some, List, [], ◌∷◌, if◌then◌else◌, leb, length, lookup,
  str_eq_refl, arith,
}
use first_principles.Cache.Memory.{
  MemoryEntry, Backend, SetOptions, is_expired, remove_key, get, entry_of, put, evict, evict_first,
  set, delete, invalidate_tag,
}
use first_principles.Cache.Memory.Indexed.{
  IsIndexed, lookup-remove_key, get-IsIndexed, set-IsIndexed, remove_key-IsIndexed,
  invalidate_tag-IsIndexed,
}
use first_principles.Cache.Memory.Bound.{size-set, size-get, size-remove_key, size-invalidate_tag}

-- What a caller asks of the cache, and when.
pub data Request {ℓ} (V : Type ℓ) : Type ℓ where
  gets : ℕ → String → Request V
  sets : ℕ → String → V → SetOptions → Request V
  deletes : String → Request V
  invalidates : String → Request V

module _ {ℓ} {V : Type ℓ} where
  unfoldable pub serve : ℕ → Request V → Backend V → Backend V
  serve max_entries (gets now key) c = (get now key c).1
  serve max_entries (sets now key value options) c = set max_entries now key value options c
  serve max_entries (deletes key) c = delete key c
  serve max_entries (invalidates tag) c = invalidate_tag tag c

  unfoldable pub serve_all : ℕ → List (Request V) → Backend V → Backend V
  serve_all max_entries [] c = c
  serve_all max_entries (r ∷ rs) c = serve_all max_entries rs (serve max_entries r c)

  pub record IsSound (max_entries : ℕ) (c : Backend V) : Type 0 where
    pub bounded : length c.store ≤ max_entries
    pub indexed : IsIndexed c

  serve-IsSound :
      (max_entries : ℕ) (r : Request V) (c : Backend V)
      → IsSound max_entries c
      → IsSound max_entries (serve max_entries r c)
  unfolding serve delete
  serve-IsSound n (gets now key) c h = record {
    bounded = omega (arith, size-get now key c, h.bounded);
    indexed = get-IsIndexed now key c h.indexed;
  }
  serve-IsSound n (sets now key value options) c h = record {
    bounded = size-set n now key value options c h.bounded;
    indexed = set-IsIndexed n now key value options c h.indexed;
  }
  serve-IsSound n (deletes key) c h = record {
    bounded = omega (arith, size-remove_key key c, h.bounded);
    indexed = remove_key-IsIndexed key c h.indexed;
  }
  serve-IsSound n (invalidates tag) c h = record {
    bounded = omega (arith, size-invalidate_tag tag c, h.bounded);
    indexed = invalidate_tag-IsIndexed tag c h.indexed;
  }

  -- However it is used, a cache that holds at most `maxEntries` entries and whose index lists exactly the
  -- tags of its entries stays such a cache.
  pub serve_all-IsSound :
      (max_entries : ℕ) (rs : List (Request V)) (c : Backend V)
      → IsSound max_entries c
      → IsSound max_entries (serve_all max_entries rs c)
  unfolding serve_all
  serve_all-IsSound n [] c h = h
  serve_all-IsSound n (r ∷ rs) c h = serve_all-IsSound n rs (serve n r c) (serve-IsSound n r c h)

  -- The first of a map that was not empty before is not what was added.
  lookup-evict_first :
      (m : List (String × MemoryEntry V)) (key : String) (entry : MemoryEntry V) (c : Backend V)
      → lookup key m ≡ none
      → 2 ≤ length (map_set m key entry)
      → lookup key (evict_first (map_set m key entry) c).store ≡ lookup key c.store
  unfolding map_set
  lookup-evict_first [] key entry c absent long = absurd (omega arith)
  lookup-evict_first ((k, e) ∷ m) key entry c absent long =
      ground (arith, lookup-remove_key k key c, lookup-remove_key key key c)

  lookup-set :
      (max_entries now : ℕ) (key : String) (value : V) (options : SetOptions) (c : Backend V)
      → 1 ≤ max_entries
      → lookup key (set max_entries now key value options c).store
        ≡ some (entry_of now value options)
  unfolding set put evict
  lookup-set max_entries now key value options c some_fit =
      let entry = entry_of now value options in
      let cleared = remove_key key c in
      let absent : lookup key cleared.store ≡ none =
        lookup-remove_key key key c ∙ ground (arith, str_eq_refl key) in
      ground (
        arith,
        lookup-evict_first cleared.store key entry (put key entry cleared) absent,
        lookup-map_set cleared.store key key entry,
        str_eq_refl key,
      )

  -- In a cache that may hold an entry, what was just set is read until its time to live, if it has one,
  -- has passed, and then it is a miss.
  pub get-set :
      (max_entries now later : ℕ) (key : String) (value : V) (options : SetOptions) (c : Backend V)
      → 1 ≤ max_entries
      → (get later key (set max_entries now key value options c)).0 ≡ elim options.ttl_ms [
        | none ↦ some value
        | some ttl_ms ↦ if leb (now + ttl_ms) later then none else some value
      ]
  unfolding get is_expired
  get-set max_entries now later key value options c some_fit =
      ground (arith, lookup-set max_entries now key value options c some_fit)
