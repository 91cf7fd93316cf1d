-- ===== src/AccessControl/Resolve.antt =====
-- packages/access-control/src/internal/resolve.ts: reading a dotted path such as
-- `resource.ownerId` from what the application supplied.
pub mod Context
use first_principles.Base.{
  String, code, Bool, true, false, Option, none, some, List, [], ◌∷◌, if◌then◌else◌, str_eq, ◌==◌,
  ℕ,
}
use first_principles.AccessControl.Values.{
  Value, undefined, null, num, Slot, given, throwing, is_object, is_finite, own,
}

pub data Resolved : Type 0 where
  value : Value → Resolved
  absent unresolved : Resolved

pub record AttributeEnvironment : Type 0 where
  pub principal : Value
  pub resource : Value
  pub env : Value

unfoldable pub normalize : Value → Resolved
normalize undefined = absent
normalize null = absent
normalize (num n) = if is_finite n then value (num n) else absent
normalize v = value v

abbrev read_slot : Option Slot → Resolved
unfolding normalize
read_slot none = absent
read_slot (some (given v)) = normalize v
read_slot (some throwing) = unresolved

-- A missing property is absent, and a read that throws is unresolved.
unfoldable pub read_own : Value → String → Resolved
unfolding read_slot
read_own target key = if is_object target then read_slot (own target key) else absent

-- `String.prototype.split` by one character: the first part, and the others.
unfoldable pub split : ℕ → String → String × List String
split sep String.[] = ("", [])
split sep (String.◌∷◌ c s) =
    let (part, parts) = split sep s in
    if code c == sep then ("", part ∷ parts) else (String.◌∷◌ c part, parts)

-- The loop over the segments behind the root.
unfoldable pub walk : Resolved → List String → Resolved
walk resolved [] = resolved
walk (value v) (segment ∷ rest) = walk (read_own v segment) rest
walk absent (segment ∷ rest) = absent
walk unresolved (segment ∷ rest) = unresolved

-- The value under a root, if the root's name is one of the three.
unfoldable pub root_of : AttributeEnvironment → String → Option Value
root_of environment root =
    if str_eq root "principal"
    then some environment.principal
    else if str_eq root "resource"
    then some environment.resource
    else if str_eq root "env"
    then some environment.env
    else none

-- What follows a root that was found.
abbrev pub resolve_from : Value → List String → Resolved
resolve_from current rest = if is_object current then walk (value current) rest else unresolved

unfoldable pub resolve_segments : AttributeEnvironment → String → List String → Resolved
unfolding root_of walk
resolve_segments environment root [] = unresolved
resolve_segments environment root (segment ∷ rest) = elim (root_of environment root) [
  | none ↦ unresolved
  | some current ↦ resolve_from current (segment ∷ rest)
]

unfoldable pub resolve_path : AttributeEnvironment → String → Resolved
resolve_path environment path =
    let parts = split b'.' path in resolve_segments environment parts.0 parts.1
