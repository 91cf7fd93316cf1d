-- ===== src/AccessControl/Roles/Effective.antt =====
-- The roles that a principal effectively holds.
use first_principles.Base.{
  ◌≡◌, refl, ◌↔◌, inl, inr, String, Bool, true, false, ◌||◌, ◌&&◌, not, if◌then◌else◌, Any, none,
  some, List, [], ◌∷◌, includes, lookup, str_eq, str_eq_iff, arith, Bool-cases, any, map,
}
use first_principles.AccessControl.Values.{Value, str, arr, Items, items}
use first_principles.AccessControl.Roles.{
  Inherits, closure, build_role_closures, EffectiveRoles, no_roles, add, add_all, slice, claim_role,
  claim_roles, resolve_effective_roles,
}
use first_principles.AccessControl.Roles.Closure.{Reach, includes-add, closure_correct}

-- The policy declares the role.
abbrev pub declared : Inherits → String → Bool
declared [] role = false
declared ((k, ps) ∷ inherits) role = str_eq k role || declared inherits role

lookup-map :
    (inherits rest : Inherits) (role : String)
    → lookup role (map (λ e. (e.0, closure inherits e.0)) rest)
      ≡ (if declared rest role then some (closure inherits role) else none)
lookup-map inherits [] role = refl
lookup-map inherits ((k, ps) ∷ rest) role =
    ground (arith, str_eq_iff k role, lookup-map inherits rest role)

lookup-build_role_closures :
    (inherits : Inherits) (role : String)
    → lookup role (build_role_closures inherits)
      ≡ (if declared inherits role then some (closure inherits role) else none)
unfolding build_role_closures
lookup-build_role_closures inherits role = lookup-map inherits inherits role

pub includes-add_all :
    (set more : List String) (r : String)
    → includes (add_all set more) r ≡ includes set r || includes more r
unfolding add_all
includes-add_all set [] r = ground arith
includes-add_all set (x ∷ more) r =
    ground (arith, includes-add_all (add set x) more r, includes-add set x r)

-- What one claimed value grants: a role that it reaches, if it is a declared role's name.
abbrev grants : Inherits → String → Value → Bool
grants inherits r (str claim) = declared inherits claim && includes (closure inherits claim) r
grants inherits r _ = false

-- An undeclared role is claimed.
abbrev is_unknown : Inherits → String → Value → Bool
is_unknown inherits r (str claim) = not (declared inherits claim) && str_eq claim r
is_unknown inherits r _ = false

module _ (inherits : Inherits) (r : String) where
  includes-claim_role :
      (e : EffectiveRoles) (v : Value)
      → (includes (claim_role (build_role_closures inherits) e v).roles r
          ≡ includes e.roles r || grants inherits r v)
        × (includes (claim_role (build_role_closures inherits) e v).unknown r
            ≡ includes e.unknown r || is_unknown inherits r v)
  unfolding claim_role
  includes-claim_role e (str claim) = ground (
    arith,
    lookup-build_role_closures inherits claim,
    includes-add_all e.roles (closure inherits claim) r,
    includes-add e.unknown claim r,
  )
  includes-claim_role e v = ground arith

  includes-claim_roles :
      (e : EffectiveRoles) (vs : List Value)
      → (includes (claim_roles (build_role_closures inherits) e vs).roles r
          ≡ includes e.roles r || any (grants inherits r) vs)
        × (includes (claim_roles (build_role_closures inherits) e vs).unknown r
            ≡ includes e.unknown r || any (is_unknown inherits r) vs)
  unfolding claim_roles
  includes-claim_roles e [] = ground arith
  includes-claim_roles e (v ∷ vs) = ground (
    arith,
    includes-claim_roles (claim_role (build_role_closures inherits) e v) vs,
    includes-claim_role e v,
  )

  -- A value that grants the role is a claim of a declared role that reaches it.
  Grant : List Value → Type 0
  Grant vs =
      (claim : String) × Any (λ v. v ≡ str claim) vs
      × (declared inherits claim ≡ true)
      × Reach inherits claim r

  Grant-here :
      (v : Value)
      → grants inherits r v ≡ true
      → (claim : String) × (v ≡ str claim)
        × (declared inherits claim ≡ true)
        × Reach inherits claim r
  Grant-here (str claim) h =
      (claim, refl, ground arith, (closure_correct inherits claim r).0 (ground arith))
  Grant-here v h = absurd (ground arith)

  Grant-of-any : (vs : List Value) → any (grants inherits r) vs ≡ true → Grant vs
  unfolding Grant
  Grant-of-any [] h = cc
  Grant-of-any (v ∷ vs) h = elim (Bool-cases (grants inherits r v)) [
    | inl here ↦
        let (claim, same, known, reaches) = Grant-here v here in (claim, inl same, known, reaches)
    | inr later ↦
        let (claim, at, known, reaches) = Grant-of-any vs (ground arith) in
        (claim, inr at, known, reaches)
  ]

  any-of-Grant : (vs : List Value) → Grant vs → any (grants inherits r) vs ≡ true
  unfolding Grant
  any-of-Grant [] (claim, at, known, reaches) = elim at [ ]
  any-of-Grant (v ∷ vs) (claim, inl same, known, reaches) =
      rw same (ground (arith, (closure_correct inherits claim r).1 reaches))
  any-of-Grant (v ∷ vs) (claim, inr at, known, reaches) =
      ground (arith, any-of-Grant vs (claim, at, known, reaches))

  any-is_unknown :
      (vs : List Value)
      → (any (is_unknown inherits r) vs ≡ true)
        ↔ (Any (λ v. v ≡ str r) vs × (declared inherits r ≡ false))
  any-is_unknown [] = ground arith
  any-is_unknown (str c ∷ vs) = ground (arith, str_eq_iff c r, any-is_unknown vs)
  any-is_unknown (v ∷ vs) = ground (arith, any-is_unknown vs)

-- If the claimed roles can be read, the effective roles are exactly those that a claimed, declared
-- role inherits from, and the unknown ones are exactly the claimed names that are not declared.
pub resolve_effective_roles_correct :
    (inherits : Inherits) (claimed : Items) (vs : List Value) (r : String)
    → slice (items claimed) ≡ some vs
    → ((includes (resolve_effective_roles (build_role_closures inherits) (arr claimed)).roles r
          ≡ true)
        ↔ ((claim : String) × Any (λ v. v ≡ str claim) vs
            × (declared inherits claim ≡ true)
            × Reach inherits claim r))
      × ((includes (resolve_effective_roles (build_role_closures inherits) (arr claimed)).unknown r
            ≡ true)
          ↔ (Any (λ v. v ≡ str r) vs × (declared inherits r ≡ false)))
unfolding resolve_effective_roles Grant
resolve_effective_roles_correct inherits claimed vs r readable =
    let both = includes-claim_roles inherits r no_roles vs in
    rw readable (
      rw (both.0, both.1)
        ((Grant-of-any inherits r vs, any-of-Grant inherits r vs), any-is_unknown inherits r vs))
