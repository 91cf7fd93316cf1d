-- ===== src/AccessControl/Validate.antt =====
-- packages/access-control/src/internal/validate.ts: roles and the policy as a whole, and `definePolicy`
-- and `parsePolicy` of policy.ts. A role graph lists its roles as they were declared.
pub mod Checks
pub mod Conditions
pub mod Rules
pub mod Declared
pub mod Selected
pub mod Leaves
pub mod Sound
pub mod Loud
pub mod Accepted
pub mod Collected
pub mod Inherited
pub mod Readable
pub mod Complete
pub mod Outcome
mod Tests
use first_principles.Base.Maps.{map_set}
use first_principles.Base.{
  ℕ, zero, suc, ◌+◌, String, Bool, true, false, not, Option, none, some, List, [], ◌∷◌, ◌++◌, map,
  if◌then◌else◌, str_eq, includes, filter, lookup,
}
use first_principles.AccessControl.Values.{
  Value, undefined, str, arr, obj, Slot, given, throwing, Items, nil, cons, Fields, items,
  Completion, normal, throw,
}
use first_principles.AccessControl.Evaluate.{read_own, has_own}
use first_principles.AccessControl.Roles.{Inherits, add}
use first_principles.AccessControl.Policy.{
  Effect, allow, deny, other, Selector, wildcard, names, RoleList, unrestricted, listed, Rule,
  Policy,
}
use first_principles.AccessControl.Validate.Checks.{
  Place, key, Complaint, PolicyIssue, not_an_array, not_an_object, not_a_string, not_a_name,
  no_names, wildcard_name, forbidden_name, extra_keys, no_effect, no_selected, undeclared, empty_id,
  duplicate_id, Check, completed, threw, done, complain, reading, ◌>>=◌,
}
use first_principles.AccessControl.Validate.Conditions.{
  child, nth, object_keys, others, is_empty, forbidden_segments, check_condition,
}
use first_principles.AccessControl.Validate.Declared.{role_names}
use first_principles.AccessControl.Validate.Rules.{
  for_each, read_name_list, select_name, check_keys, settled, read_rules,
}

-- A role that is declared twice keeps its first place.
unfoldable pub declare_role : Inherits → Value → List Place → Check Inherits
declare_role graph (str s) path =
    if str_eq s ""
    then complain path not_a_name graph
    else if includes forbidden_segments s
    then complain path forbidden_name graph
    else done (map_set graph s [])
declare_role graph _ path = complain path not_a_name graph

-- A key of the map form, and all of them.
unfoldable pub declare_key : Inherits → String → Check Inherits
declare_key graph role =
    if str_eq role ""
    then complain (key "roles" ∷ []) not_a_name graph
    else if includes forbidden_segments role
    then complain (child (key "roles" ∷ []) role) forbidden_name graph
    else done (map_set graph role [])

unfoldable pub declare_keys : List String → Inherits → Check Inherits
declare_keys [] graph = done graph
declare_keys (role ∷ roles) graph = do more ← declare_key graph role; declare_keys roles more

-- The parents of one role, each a declared one.
unfoldable pub read_parents : List String → Value → List Place → Check (List String)
read_parents declared (arr xs) path = for_each (select_name declared) path 0 [] (items xs)
read_parents declared _ path = complain path not_an_array []

unfoldable pub read_graph : Fields → List String → List String → Check Inherits
read_graph fs declared [] = done []
read_graph fs declared (role ∷ roles) = do
  raw ← reading (read_own (obj fs) role)
  parents ← read_parents declared raw (child (key "roles" ∷ []) role)
  graph ← read_graph fs declared roles
  done ((role, parents) ∷ graph)

unfoldable pub read_roles : Value → Check Inherits
read_roles undefined = done []
read_roles (arr xs) = for_each declare_role (key "roles" ∷ []) 0 [] (items xs)
read_roles (obj fs) = do
  declared ← declare_keys (object_keys fs) []
  read_graph fs (role_names declared) (role_names declared)
read_roles _ = complain (key "roles" ∷ []) not_an_object []

abbrev pub policy_keys : List String
policy_keys = "actions" ∷ "subjects" ∷ "roles" ∷ "rules" ∷ []

unfoldable pub read_policy : Fields → Check (Option Policy)
read_policy fs = do
  raw_actions ← reading (read_own (obj fs) "actions")
  actions ← read_name_list raw_actions (key "actions" ∷ [])
  raw_subjects ← reading (read_own (obj fs) "subjects")
  subjects ← read_name_list raw_subjects (key "subjects" ∷ [])
  raw_roles ← reading (read_own (obj fs) "roles")
  graph ← read_roles raw_roles
  raw_rules ← reading (read_own (obj fs) "rules")
  rules ← read_rules actions subjects (role_names graph) raw_rules
  _ ← check_keys policy_keys [] (object_keys fs)
  done (
      some (record {
        branded = false;
        actions = actions;
        subjects = subjects;
        roles = graph;
        rules = rules;
      }))

-- A policy only if there is no issue.
unfoldable pub validate_policy : Value → Check (Option Policy)
validate_policy (obj fs) = settled (read_policy fs)
validate_policy _ = complain [] not_an_object none

-- What `parsePolicy` returns: a policy that carries the brand, or the issues of its ValidationError.
pub data Parsed : Type 0 where
  parsed : Policy → Parsed
  invalid : List PolicyIssue → Parsed

abbrev pub outcome : Check (Option Policy) → Completion Parsed
outcome threw = throw
outcome (completed none issues) = normal (invalid issues)
outcome (completed (some policy) issues) = normal (parsed (record policy { branded = true }))

unfoldable pub parse_policy : Value → Completion Parsed
parse_policy input = outcome (validate_policy input)

-- `definePolicy` throws where `parsePolicy` returns the error.
abbrev pub or_throw : Completion Parsed → Completion Policy
or_throw (normal (parsed policy)) = normal policy
or_throw _ = throw

unfoldable pub define_policy : Value → Completion Policy
define_policy definition = or_throw (outcome (validate_policy definition))
