-- ===== src/Cache/Memory/Indexed.antt =====
-- The index of tags lists exactly the tags of the stored entries, and what `invalidateTag` removes.
use first_principles.Base.Maps.{map_delete, lookup-map_set, lookup-map_delete}
use first_principles.Base.{
  ◌≡◌, refl, ◌∙◌, inl, inr, ℕ, String, Bool, false, Option, none, some, List, [], ◌∷◌,
  if◌then◌else◌, includes, lookup, str_eq, str_eq_iff, str_eq_refl, arith, Option-cases,
}
use first_principles.Cache.Memory.{
  MemoryEntry, Backend, SetOptions, remove_key, touch, get, entry_of, put, evict, evict_first, set,
  remove_all, invalidate_tag,
}
use first_principles.Cache.Memory.Tags.{member, member-untag, member-tag_all}

module _ {ℓ} {V : Type ℓ} where
  abbrev has_tag : Option (MemoryEntry V) → String → Bool
  has_tag none tag = false
  has_tag (some entry) tag = includes entry.tags tag

  -- Whether the key is stored with the tag.
  abbrev pub tagged : Backend V → String → String → Bool
  tagged c tag key = has_tag (lookup key c.store) tag

  abbrev pub IsIndexed : Backend V → Type 0
  IsIndexed c = (tag key : String) → member c.tag_index tag key ≡ tagged c tag key

  pub lookup-remove_key :
      (key k : String) (c : Backend V)
      → lookup k (remove_key key c).store ≡ (if str_eq key k then none else lookup k c.store)
  unfolding remove_key
  lookup-remove_key key k c = elim (Option-cases (lookup key c.store)) [
    | inl gone ↦ ground (arith, str_eq_iff key k)
    | inr (entry, found) ↦ ground (arith, lookup-map_delete c.store key k)
  ]

  pub remove_key-IsIndexed :
      (key : String) (c : Backend V) → IsIndexed c → IsIndexed (remove_key key c)
  unfolding remove_key
  remove_key-IsIndexed key c h tag k = elim (Option-cases (lookup key c.store)) [
    | inl gone ↦ ground (arith, h tag k)
    | inr (entry, found) ↦ ground (
      arith,
      h tag k,
      member-untag key entry.tags c.tag_index tag k,
      lookup-map_delete c.store key k,
      str_eq_iff key k,
    )
  ]

  pub get-IsIndexed :
      (now : ℕ) (key : String) (c : Backend V) → IsIndexed c → IsIndexed (get now key c).1
  unfolding get touch
  get-IsIndexed now key c h tag k = elim (Option-cases (lookup key c.store)) [
    | inl gone ↦ ground (arith, h tag k)
    | inr (entry, found) ↦ ground (
      arith,
      h tag k,
      remove_key-IsIndexed key c h tag k,
      lookup-map_set (map_delete c.store key) key k entry,
      lookup-map_delete c.store key k,
      str_eq_iff key k,
    )
  ]

  pub put-IsIndexed :
      (key : String) (entry : MemoryEntry V) (c : Backend V)
      → IsIndexed c
      → lookup key c.store ≡ none
      → IsIndexed (put key entry c)
  unfolding put
  put-IsIndexed key entry c h absent tag k = ground (
    arith,
    h tag k,
    member-tag_all key entry.tags c.tag_index tag k,
    lookup-map_set c.store key k entry,
    str_eq_iff key k,
  )

  evict_first-IsIndexed :
      (store : List (String × MemoryEntry V)) (c : Backend V)
      → IsIndexed c
      → IsIndexed (evict_first store c)
  evict_first-IsIndexed [] c h = h
  evict_first-IsIndexed ((oldest, entry) ∷ rest) c h = remove_key-IsIndexed oldest c h

  pub evict-IsIndexed :
      (max_entries : ℕ) (c : Backend V) → IsIndexed c → IsIndexed (evict max_entries c)
  unfolding evict
  evict-IsIndexed max_entries c h tag k =
      ground (arith, h tag k, evict_first-IsIndexed c.store c h tag k)

  pub set-IsIndexed :
      (max_entries now : ℕ) (key : String) (value : V) (options : SetOptions) (c : Backend V)
      → IsIndexed c
      → IsIndexed (set max_entries now key value options c)
  unfolding set
  set-IsIndexed max_entries now key value options c h =
      evict-IsIndexed max_entries (put key (entry_of now value options) (remove_key key c)) (
        put-IsIndexed key (entry_of now value options) (remove_key key c)
          (remove_key-IsIndexed key c h)
          (lookup-remove_key key key c ∙ ground (arith, str_eq_refl key)))

  pub remove_all-IsIndexed :
      (keys : List String) (c : Backend V) → IsIndexed c → IsIndexed (remove_all keys c)
  unfolding remove_all
  remove_all-IsIndexed [] c h = h
  remove_all-IsIndexed (key ∷ keys) c h =
      remove_all-IsIndexed keys (remove_key key c) (remove_key-IsIndexed key c h)

  lookup-remove_all :
      (keys : List String) (k : String) (c : Backend V)
      → lookup k (remove_all keys c).store ≡ (if includes keys k then none else lookup k c.store)
  unfolding remove_all
  lookup-remove_all [] k c = refl
  lookup-remove_all (key ∷ keys) k c =
      ground (arith, lookup-remove_all keys k (remove_key key c), lookup-remove_key key k c)

  pub invalidate_tag-IsIndexed :
      (tag : String) (c : Backend V) → IsIndexed c → IsIndexed (invalidate_tag tag c)
  unfolding invalidate_tag
  invalidate_tag-IsIndexed tag c h t k = elim (Option-cases (lookup tag c.tag_index)) [
    | inl gone ↦ ground (arith, h t k)
    | inr (members, found) ↦ ground (arith, remove_all-IsIndexed members c h t k)
  ]

  -- In a cache whose index lists exactly the tags of its entries, `invalidateTag` removes the entries
  -- stored with the tag and no other, and the index lists exactly the tags of those that are left.
  pub invalidate_tag-removes :
      (tag : String) (c : Backend V)
      → IsIndexed c
      → ((key : String)
          → lookup key (invalidate_tag tag c).store
            ≡ (if tagged c tag key then none else lookup key c.store))
        × IsIndexed (invalidate_tag tag c)
  unfolding invalidate_tag member
  invalidate_tag-removes tag c h = (
    λ key. elim (Option-cases (lookup tag c.tag_index)) [
      | inl gone ↦ ground (arith, h tag key)
      | inr (members, found) ↦ ground (arith, h tag key, lookup-remove_all members key c)
    ],
    invalidate_tag-IsIndexed tag c h,
  )
