-- ===== src/AccessControl/Roles.antt =====
-- packages/access-control/src/internal/roles.ts: role inheritance, flattened once per policy.
-- `inherits` lists a role's parents under the role. The stack `pending` has its top at the head.
pub mod Closure
pub mod Effective
use mathlib.Core.List.{reverse}
use mathlib.Core.Option.{get_or}
use first_principles.Base.{
  ℕ, zero, suc, ◌+◌, String, Bool, true, false, not, Option, none, some, List, [], ◌∷◌, ◌++◌, map,
  length, if◌then◌else◌, includes, lookup,
}
use first_principles.AccessControl.Values.{Value, str, arr, Slot, given, throwing, items}

abbrev pub Inherits : Type 0
Inherits = List (String × List String)

-- The parents of a declared role, and no parents for any other name.
unfoldable pub parents : Inherits → String → List String
parents inherits role = get_or (lookup role inherits) []

-- `Set.prototype.add`
unfoldable pub add : List String → String → List String
add set name = if includes set name then set else set ++ name ∷ []

abbrev push_parents : Inherits → List String → String → List String → List String
push_parents inherits reached current rest =
    if includes reached current then rest else reverse (parents inherits current) ++ rest

-- The `while` loop: `none` means that the fuel ran out.
unfoldable pub reach_loop : Inherits → ℕ → List String → List String → Option (List String)
reach_loop inherits fuel reached [] = some reached
reach_loop inherits zero reached (current ∷ rest) = none
reach_loop inherits (suc fuel) reached (current ∷ rest) =
    reach_loop inherits fuel (add reached current) (push_parents inherits reached current rest)

-- The parents that are still to be pushed.
unfoldable pub weight : Inherits → List String → ℕ
weight [] reached = 0
weight ((role, ps) ∷ inherits) reached =
    (if includes reached role then 0 else length ps) + weight inherits reached

unfoldable pub closure : Inherits → String → List String
closure inherits role = get_or (reach_loop inherits (weight inherits [] + 1) [] (role ∷ [])) []

abbrev pub Closures : Type 0
Closures = List (String × List String)

unfoldable pub build_role_closures : Inherits → Closures
build_role_closures inherits = map (λ e. (e.0, closure inherits e.0)) inherits

pub record EffectiveRoles : Type 0 where
  pub roles : List String
  pub unknown : List String

abbrev pub no_roles : EffectiveRoles
no_roles = record { roles = []; unknown = [] }

-- `Array.prototype.slice.call(claimed)`: `none` if an element cannot be read.
unfoldable pub slice : List Slot → Option (List Value)
slice [] = some []
slice (throwing ∷ rest) = none
slice (given v ∷ rest) = elim (slice rest) [ none ↦ none | some vs ↦ some (v ∷ vs) ]

unfoldable pub add_all : List String → List String → List String
add_all roles [] = roles
add_all roles (role ∷ more) = add_all (add roles role) more

unfoldable pub claim_role : Closures → EffectiveRoles → Value → EffectiveRoles
claim_role closures e (str claim) = elim (lookup claim closures) [
  | none ↦ record e { unknown = add e.unknown claim }
  | some reached ↦ record e { roles = add_all e.roles reached }
]
claim_role closures e _ = e

unfoldable pub claim_roles : Closures → EffectiveRoles → List Value → EffectiveRoles
claim_roles closures e [] = e
claim_roles closures e (claim ∷ rest) = claim_roles closures (claim_role closures e claim) rest

abbrev claim_sliced : Closures → Option (List Value) → EffectiveRoles
claim_sliced closures none = no_roles
claim_sliced closures (some claims) = claim_roles closures no_roles claims

unfoldable pub resolve_effective_roles : Closures → Value → EffectiveRoles
resolve_effective_roles closures (arr claimed) = claim_sliced closures (slice (items claimed))
resolve_effective_roles closures _ = no_roles
