-- ===== src/Cache/Tests.antt =====
-- A cache of two entries.
use first_principles.Base.{
  ◌≡◌, refl, ℕ, String, none, some, List, [], ◌∷◌, if◌then◌else◌, leb, lookup, str_eq, arith,
}
use first_principles.Base.Maps.{map_set, map_delete}
use first_principles.Cache.Memory.{
  Backend, SetOptions, set_add, set_delete, untag_one, untag, tag_one, tag_all, is_expired,
  remove_key, touch, get, put, evict, set, delete, remove_all, invalidate_tag,
}
use first_principles.Cache.Memory.Tags.{member}
use first_principles.Cache.Memory.Indexed.{IsIndexed, tagged, invalidate_tag-removes}
use first_principles.Cache.Memory.Requests.{
  Request, gets, sets, serve, serve_all, IsSound, serve_all-IsSound, get-set,
}

program : Unit {0}
unfolding map_set map_delete set_add set_delete untag_one untag tag_one tag_all is_expired
    remove_key touch get put evict set delete remove_all invalidate_tag member serve serve_all
    str_eq
program = tt

abbrev empty : Backend ℕ
empty = record { store = []; tag_index = [] }

abbrev users : SetOptions
users = record { ttl_ms = some 100; tags = "users" ∷ [] }

abbrev plain : SetOptions
plain = record { ttl_ms = none; tags = [] }

abbrev calls : List (Request ℕ)
calls = sets 0 "a" 1 users ∷ sets 1 "b" 2 plain ∷ gets 2 "a" ∷ sets 3 "c" 3 users ∷ []

-- "b" was used least recently when "c" came.
abbrev used : Backend ℕ
used = record {
  store =
      ("a", record { value = 1; expires_at = some 100; tags = "users" ∷ [] })
      ∷ ("c", record { value = 3; expires_at = some 103; tags = "users" ∷ [] })
      ∷ [];
  tag_index = ("users", "a" ∷ "c" ∷ []) ∷ [];
}

calls_run : serve_all 2 calls empty ≡ used
unfolding program
calls_run = refl

empty-IsSound : IsSound 2 empty
unfolding member
empty-IsSound = record { bounded = omega arith; indexed = λ tag key. refl }

serve_all-IsSound_example : IsSound 2 (serve_all 2 calls empty)
serve_all-IsSound_example = serve_all-IsSound 2 calls empty empty-IsSound

get-set_example : (get 50 "d" (set 2 10 "d" 4 users used)).0 ≡ (if leb 110 50 then none else some 4)
get-set_example = get-set 2 10 50 "d" 4 users used (omega arith)

invalidate_tag-removes_example :
    ((key : String)
      → lookup key (invalidate_tag "users" (serve_all 2 calls empty)).store ≡ (
          if tagged (serve_all 2 calls empty) "users" key
          then none
          else lookup key (serve_all 2 calls empty).store))
    × IsIndexed (invalidate_tag "users" (serve_all 2 calls empty))
invalidate_tag-removes_example =
    invalidate_tag-removes "users" (serve_all 2 calls empty)
      (serve_all-IsSound 2 calls empty empty-IsSound).indexed

invalidate_runs : (invalidate_tag "users" used).store ≡ []
unfolding program
invalidate_runs = refl
