-- ===== src/Cache/Memory/Tags.antt =====
-- What tagging and untagging a key change in the index of tags.
use first_principles.Base.Maps.{lookup-map_set, lookup-map_delete}
use first_principles.Base.{
  ◌≡◌, inl, inr, String, Bool, false, not, ◌||◌, ◌&&◌, Option, none, some, List, [], ◌∷◌,
  if◌then◌else◌, includes, lookup, str_eq, str_eq_iff, arith, Option-cases, includes-append,
}
use first_principles.Cache.Memory.{
  Index, set_add, set_delete, untag_one, untag, tag_one, tag_all, put_members,
}

abbrev pub among : Option (List String) → String → Bool
among none key = false
among (some members) key = includes members key

-- Whether the index lists the key under the tag.
unfoldable pub member : Index → String → String → Bool
member index tag key = among (lookup tag index) key

includes-set_add :
    (members : List String) (key k : String)
    → includes (set_add key members) k ≡ (str_eq key k || includes members k)
unfolding set_add
includes-set_add members key k =
    ground (arith, includes-append members (key ∷ []) k, str_eq_iff key k)

includes-set_delete :
    (members : List String) (key k : String)
    → includes (set_delete key members) k ≡ (not (str_eq key k) && includes members k)
unfolding set_delete
includes-set_delete [] key k = ground arith
includes-set_delete (m ∷ members) key k =
    ground
      (arith, includes-set_delete members key k, str_eq_iff m key, str_eq_iff m k, str_eq_iff key k)

member-put_members :
    (members : List String) (tag : String) (index : Index) (t k : String)
    → member (put_members tag members index) t k
      ≡ (if str_eq tag t then includes members k else member index t k)
unfolding member
member-put_members [] tag index t k = ground (arith, lookup-map_delete index tag t)
member-put_members (m ∷ members) tag index t k =
    ground (arith, lookup-map_set index tag t (m ∷ members))

member-untag_one :
    (key tag : String) (index : Index) (t k : String)
    → member (untag_one key tag index) t k
      ≡ (not (str_eq tag t && str_eq key k) && member index t k)
unfolding untag_one member
member-untag_one key tag index t k = elim (Option-cases (lookup tag index)) [
  | inl gone ↦ ground (arith, str_eq_iff tag t)
  | inr (members, found) ↦ ground (
    arith,
    member-put_members (set_delete key members) tag index t k,
    includes-set_delete members key k,
    str_eq_iff tag t,
  )
]

pub member-untag :
    (key : String) (tags : List String) (index : Index) (t k : String)
    → member (untag key tags index) t k
      ≡ (not (includes tags t && str_eq key k) && member index t k)
unfolding untag
member-untag key [] index t k = ground arith
member-untag key (tag ∷ tags) index t k =
    ground (
      arith,
      member-untag key tags (untag_one key tag index) t k,
      member-untag_one key tag index t k,
    )

member-tag_one :
    (key tag : String) (index : Index) (t k : String)
    → member (tag_one key tag index) t k ≡ ((str_eq tag t && str_eq key k) || member index t k)
unfolding tag_one member
member-tag_one key tag index t k = elim (Option-cases (lookup tag index)) [
  | inl gone ↦ ground (arith, lookup-map_set index tag t (key ∷ []), str_eq_iff tag t)
  | inr (members, found) ↦ ground (
    arith,
    lookup-map_set index tag t (set_add key members),
    includes-set_add members key k,
    str_eq_iff tag t,
  )
]

pub member-tag_all :
    (key : String) (tags : List String) (index : Index) (t k : String)
    → member (tag_all key tags index) t k ≡ ((includes tags t && str_eq key k) || member index t k)
unfolding tag_all
member-tag_all key [] index t k = ground arith
member-tag_all key (tag ∷ tags) index t k =
    ground
      (arith, member-tag_all key tags (tag_one key tag index) t k, member-tag_one key tag index t k)
