-- ===== src/AccessControl/Tests.antt =====
-- A small policy, requests under it, and the theorems at these inputs.
use mathlib.Core.List.Perm
use first_principles.Base.Maps.{map_set}
use first_principles.Base.{
  ◌≡◌, refl, ◌↔◌, inl, inr, String, true, false, Option, none, some, List, [], ◌∷◌, includes,
  str_eq, ◌+◌, All, Any, if◌then◌else◌,
}
use first_principles.AccessControl.Truth.{is_true, is_false, unknown, all, any, negate}
use first_principles.AccessControl.Truth.Laws.{kleene_values}
use first_principles.AccessControl.Values.{
  Value, undefined, null, bool, str, arr, obj, given, Items, nil, cons, end, field, normal, own,
}
use first_principles.AccessControl.Resolve.{
  AttributeEnvironment, normalize, read_own, split, walk, root_of, resolve_segments, resolve_path,
}
use first_principles.AccessControl.Resolve.Context.{Within}
use first_principles.AccessControl.Evaluate
use first_principles.AccessControl.Evaluate.{evaluate_condition}
use first_principles.AccessControl.Evaluate.Monotone.{evaluate_condition_definite}
use first_principles.AccessControl.Policy.{
  allow, deny, wildcard, names, unrestricted, listed, Rule, Policy, Decision, allowed,
  unresolved_deny,
}
use first_principles.AccessControl.Engine.{
  try_verdict, verdict_of, context_root, bucket_of, build_index, create_access_control, concerns,
  scan_deny, scan_allow, scan_bucket, for_principal, environment_of, explain, can, assert_can,
}
use first_principles.AccessControl.Engine.Answer.{
  engine_of, reason_of, effective_roles, decide, decide-reason,
}
use first_principles.AccessControl.Engine.Reason.{is_allowed}
use first_principles.AccessControl.Engine.Order.{decide-Perm}
use first_principles.AccessControl.Engine.Context.{decide-Within}
use first_principles.AccessControl.Guard.{
  GuardOptions, PermissionRequirement, PermissionGrant, granted, permission_denied, is_given,
  explain_for, refuse, conclude, gather, authorize,
}
use first_principles.AccessControl.Guard.Outcome.{Rests, grant_of, authorize-Rests}
use first_principles.AccessControl.Roles.Closure.{Reach, closure_correct, closure_returns}
use first_principles.AccessControl.Roles.Effective.{declared, resolve_effective_roles_correct}
use first_principles.AccessControl.Roles.{
  Inherits, parents, add, reach_loop, weight, closure, build_role_closures, slice, add_all,
  claim_role, claim_roles, resolve_effective_roles,
}

-- What a run of the engine computes with.
program : Unit {0}
unfolding own normalize read_own split walk root_of resolve_segments resolve_path str_eq
    Evaluate.has_own Evaluate.read_own Evaluate.strict_eq Evaluate.some_equal Evaluate.order
    Evaluate.apply_values Evaluate.apply_binary Evaluate.apply_ref Evaluate.leaf_with Evaluate.leaf
    Evaluate.map_slots Evaluate.combine Evaluate.evaluate_node Evaluate.evaluate evaluate_condition
    all any negate parents add reach_loop weight closure build_role_closures slice add_all
    claim_role claim_roles resolve_effective_roles try_verdict verdict_of context_root bucket_of
    map_set build_index create_access_control concerns scan_deny scan_allow scan_bucket
    for_principal environment_of explain can assert_can decide explain_for refuse conclude gather
    authorize
program = tt

-- `{ path: 'resource.ownerId', op: 'eq', ref: 'principal.id' }`
abbrev owns : Value
owns = obj (
    field "path" (given (str "resource.ownerId"))
      (field "op" (given (str "eq")) (field "ref" (given (str "principal.id")) end)))

abbrev ana : Value
ana = obj (
    field "id" (given (str "ana"))
      (field "roles" (given (arr (cons (given (str "editor")) nil))) end))

abbrev with_post : AttributeEnvironment
with_post = record {
  principal = ana;
  resource = obj (field "ownerId" (given (str "ana")) end);
  env = undefined;
}

owns_post : evaluate_condition owns with_post ≡ normal is_true
unfolding program
owns_post = refl

-- `{ path: 'resource.locked', op: 'eq', value: true }`
abbrev locked : Value
locked = obj (
    field "path" (given (str "resource.locked"))
      (field "op" (given (str "eq")) (field "value" (given (bool true)) end)))

-- Without the resource the comparison is unknown.
abbrev without_post : AttributeEnvironment
without_post = record with_post { resource = undefined }

locked_unknown : evaluate_condition locked without_post ≡ normal unknown
unfolding program
locked_unknown = refl

abbrev inherits : Inherits
inherits = ("editor", "viewer" ∷ []) ∷ ("viewer", "editor" ∷ []) ∷ ("guest", []) ∷ []

abbrev edit_own : Rule
edit_own = record {
  id = some "edit-own";
  description = none;
  effect = allow;
  actions = names ("edit" ∷ []);
  subjects = names ("post" ∷ []);
  roles = listed ("viewer" ∷ []);
  when = some owns;
}

abbrev not_locked : Rule
not_locked = record {
  id = some "not-locked";
  description = none;
  effect = deny;
  actions = wildcard;
  subjects = wildcard;
  roles = unrestricted;
  when = some locked;
}

abbrev policy : Policy
policy = record {
  branded = true;
  actions = "edit" ∷ "read" ∷ [];
  subjects = "post" ∷ [];
  roles = inherits;
  rules = edit_own ∷ not_locked ∷ [];
}

abbrev own_post : Value
own_post = obj (field "ownerId" (given (str "ana")) (field "locked" (given (bool false)) end))

abbrev context : Value
context = obj (field "resource" (given own_post) end)

abbrev full_context : Value
full_context = obj (field "resource" (given own_post) (field "env" (given (obj end)) end))

abbrev environment : AttributeEnvironment
environment = record { principal = ana; resource = own_post; env = undefined }

abbrev full_environment : AttributeEnvironment
full_environment = record environment { env = obj end }

abbrev claimed : Value
claimed = arr (cons (given (str "editor")) nil)

abbrev grant : Decision
grant = record {
  allowed = true;
  reason = allowed;
  action = "edit";
  subject = "post";
  rule_id = some "edit-own";
  unknown_roles = none;
}

edit_allowed : decide policy ana "edit" "post" context ≡ normal grant
unfolding program
edit_allowed = refl

-- Without the resource the deny rule is undecided, and that denies.
edit_unresolved :
    decide policy ana "edit" "post" (obj end)
    ≡ normal
        (record grant { allowed = false; reason = unresolved_deny; rule_id = some "not-locked" })
unfolding program
edit_unresolved = refl

kleene_values_example :
    ((all (is_true ∷ unknown ∷ []) ≡ is_false) ↔ Any (λ x. x ≡ is_false) (is_true ∷ unknown ∷ []))
    × ((all (is_true ∷ unknown ∷ []) ≡ is_true) ↔ All (λ x. x ≡ is_true) (is_true ∷ unknown ∷ []))
    × ((any (is_true ∷ unknown ∷ []) ≡ is_true) ↔ Any (λ x. x ≡ is_true) (is_true ∷ unknown ∷ []))
    × ((any (is_true ∷ unknown ∷ []) ≡ is_false) ↔ All (λ x. x ≡ is_false) (is_true ∷ unknown ∷ []))
kleene_values_example = kleene_values (is_true ∷ unknown ∷ [])

abbrev less_env : AttributeEnvironment
less_env = environment

less_Within : Within environment full_environment
less_Within = record { principal = inr refl; resource = inr refl; env = inl refl }

evaluate_condition_definite_example : evaluate_condition owns full_environment ≡ normal is_true
unfolding program
evaluate_condition_definite_example =
    evaluate_condition_definite environment full_environment owns is_true less_Within refl (λ e. cc)
      (λ e. cc)

decide-reason_example :
    (d : Decision) × (decide policy ana "edit" "post" context ≡ normal d)
    × (d.reason ≡ reason_of policy (effective_roles policy claimed) environment "edit" "post")
    × (d.allowed ≡ is_allowed d.reason)
    × (d.action ≡ "edit")
    × (d.subject ≡ "post")
unfolding program
decide-reason_example =
    decide-reason policy ana claimed context environment "edit" "post" refl refl refl

decide-Within_example :
    (e : Decision) × (decide policy ana "edit" "post" full_context ≡ normal e) × (e.allowed ≡ true)
unfolding program
decide-Within_example =
    decide-Within policy ana claimed "edit" "post" context full_context environment full_environment
      grant refl refl refl refl less_Within (λ e. cc, (λ e. cc, tt)) refl refl

decide-Perm_example :
    (d : Decision) × (e : Decision) × (decide policy ana "edit" "post" context ≡ normal d)
    × (decide (record policy { rules = not_locked ∷ edit_own ∷ [] }) ana "edit" "post" context
        ≡ normal e)
    × (d.reason ≡ e.reason)
    × (d.allowed ≡ e.allowed)
unfolding program
decide-Perm_example =
    decide-Perm policy (not_locked ∷ edit_own ∷ []) ana claimed context environment "edit" "post"
      (Perm.swap not_locked edit_own []) refl refl refl

closure_correct_example :
    (includes (closure inherits "viewer") "editor" ≡ true) ↔ Reach inherits "viewer" "editor"
closure_correct_example = closure_correct inherits "viewer" "editor"

closure_returns_example :
    reach_loop inherits (weight inherits [] + 1) [] ("editor" ∷ [])
    ≡ some (closure inherits "editor")
closure_returns_example = closure_returns inherits "editor"

abbrev roles_claimed : Items
roles_claimed = cons (given (str "editor")) (cons (given null) (cons (given (str "root")) nil))

abbrev values_claimed : List Value
values_claimed = str "editor" ∷ null ∷ str "root" ∷ []

resolve_effective_roles_correct_example :
    ((includes
          (resolve_effective_roles (build_role_closures inherits) (arr roles_claimed)).roles
          "viewer"
        ≡ true)
      ↔ ((claim : String) × Any (λ v. v ≡ str claim) values_claimed
          × (declared inherits claim ≡ true)
          × Reach inherits claim "viewer"))
    × ((includes
            (resolve_effective_roles (build_role_closures inherits) (arr roles_claimed)).unknown
            "viewer"
          ≡ true)
        ↔ (Any (λ v. v ≡ str "viewer") values_claimed × (declared inherits "viewer" ≡ false)))
unfolding slice
resolve_effective_roles_correct_example =
    resolve_effective_roles_correct inherits roles_claimed values_claimed "viewer" refl

-- A request is a principal beside the record that it asks for.
abbrev options : GuardOptions (Value × Value)
options = record { get_principal = λ r. normal r.0; on_deny = some (λ _ _. normal tt) }

abbrev requirement : Option (PermissionRequirement (Value × Value))
requirement = some (record { get_resource = some (λ r. normal r.1); get_env = none })

abbrev passed_grant : PermissionGrant
passed_grant = record {
  action = "edit";
  subject = "post";
  resource = own_post;
  env = undefined;
  decision = grant;
}

authorize-Rests_example :
    ((g : PermissionGrant)
      → granted passed_grant ≡ granted g
      → Rests
          (engine_of policy)
          options
          (ana, own_post)
          "edit"
          "post"
          requirement
          g.resource
          g.env
          g.decision
        × (g
            ≡ grant_of
                (engine_of policy)
                options
                (ana, own_post)
                "edit"
                "post"
                requirement
                g.resource
                g.env
                g.decision)
        × (g.decision.allowed ≡ true)
        × (◌≡◌ {A = List Decision} [] []))
    × ((resource env : Value) (d : Decision)
        → Rests (engine_of policy) options (ana, own_post) "edit" "post" requirement resource env d
        → d.allowed ≡ true
        → (granted passed_grant
            ≡ granted (
                grant_of
                  (engine_of policy)
                  options
                  (ana, own_post)
                  "edit"
                  "post"
                  requirement
                  resource
                  env
                  d))
          × (◌≡◌ {A = List Decision} [] []))
    × ((d : Decision)
        → granted passed_grant ≡ permission_denied d
        → ((resource : Value) × (env : Value) × Rests
              (engine_of policy)
              options
              (ana, own_post)
              "edit"
              "post"
              requirement
              resource
              env
              d)
          × (d.allowed ≡ false)
          × (◌≡◌ {A = List Decision} [] (if is_given options.on_deny then d ∷ [] else [])))
unfolding program
authorize-Rests_example =
    authorize-Rests (engine_of policy) options (ana, own_post) "edit" "post" requirement
      (granted passed_grant) [] refl
