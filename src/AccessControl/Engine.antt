-- ===== src/AccessControl/Engine.antt =====
-- packages/access-control/src/engine.ts: from a policy to decisions.
pub mod Reason
pub mod Answer
pub mod Order
pub mod Context
use first_principles.Base.Maps.{map_set}
use first_principles.Base.{
  String, Bool, true, false, not, ◌&&◌, ◌||◌, Option, none, some, List, [], ◌∷◌, if◌then◌else◌,
  str_eq, includes, lookup, any, filter,
}
use first_principles.AccessControl.Truth.{Ternary, is_true, is_false, unknown}
use first_principles.AccessControl.Values.{
  Value, undefined, null, Completion, normal, throw, ◌>>=◌, is_object,
}
use first_principles.AccessControl.Resolve.{AttributeEnvironment}
use first_principles.AccessControl.Evaluate.{read_own, evaluate_condition}
use first_principles.AccessControl.Policy.{
  Effect, allow, deny, other, Selector, wildcard, names, RoleList, unrestricted, listed, Rule,
  Policy, DecisionReason, allowed, explicit_deny, unresolved_deny, no_matching_rule, unknown_action,
  unknown_subject, Decision,
}
use first_principles.AccessControl.Roles.{
  Inherits, Closures, build_role_closures, EffectiveRoles, resolve_effective_roles,
}

abbrev pub matches_selector : Selector → String → Bool
matches_selector wildcard name = true
matches_selector Selector.malformed name = false
matches_selector (names selected) name = includes selected name

abbrev pub matches_roles : RoleList → List String → Bool
matches_roles unrestricted roles = true
matches_roles RoleList.malformed roles = false
matches_roles (listed declared) roles = any (includes roles) declared

-- An exception while a condition is evaluated leaves its verdict unknown.
abbrev pub caught : Completion Ternary → Ternary
caught (normal verdict) = verdict
caught throw = unknown

-- What stands in the `try` block.
unfoldable pub try_verdict : Option Value → AttributeEnvironment → Completion Ternary
try_verdict none environment = normal is_true
try_verdict (some undefined) environment = normal is_true
try_verdict (some condition) environment = evaluate_condition condition environment

unfoldable pub verdict_of : Rule → AttributeEnvironment → Ternary
verdict_of rule environment = caught (try_verdict rule.when environment)

abbrev pub nullish_to_undefined : Value → Value
nullish_to_undefined null = undefined
nullish_to_undefined v = v

unfoldable pub context_root : Value → String → Completion Value
context_root context key =
    if is_object context
    then (do root ← read_own context key; normal (nullish_to_undefined root))
    else normal undefined

pub record SubjectBucket : Type 0 where
  pub deny : List Rule
  pub allow : List Rule

abbrev pub is_deny : Effect → Bool
is_deny deny = true
is_deny _ = false

abbrev pub is_allow : Effect → Bool
is_allow allow = true
is_allow _ = false

unfoldable pub bucket_of : List Rule → String → SubjectBucket
bucket_of rules subject =
    let applicable = filter (λ (rule : Rule). matches_selector rule.subjects subject) rules in
    record {
      deny = filter (λ (rule : Rule). is_deny rule.effect) applicable;
      allow = filter (λ (rule : Rule). is_allow rule.effect) applicable;
    }

abbrev pub Index : Type 0
Index = List (String × SubjectBucket)

unfoldable pub build_index : List Rule → Index → List String → Index
build_index rules index [] = index
build_index rules index (subject ∷ subjects) =
    build_index rules (map_set index subject (bucket_of rules subject)) subjects

pub record AccessControl : Type 0 where
  pub policy : Policy
  pub closures : Closures
  pub index : Index

unfoldable pub create_access_control : Policy → Completion AccessControl
create_access_control policy =
    if policy.branded
    then normal (record {
      policy = policy;
      closures = build_role_closures policy.roles;
      index = build_index policy.rules [] policy.subjects;
    })
    else throw

-- Does the rule concern this action and someone with these roles?
unfoldable pub concerns : String → List String → Rule → Bool
concerns action roles rule = matches_selector rule.actions action && matches_roles rule.roles roles

pub data DenyScan : Type 0 where
  denied : Option String → DenyScan
  finished : Bool → Option String → DenyScan

-- What one deny rule does to `sawUnresolvedDeny` and `unresolvedDenyId`: nothing, if it is false.
abbrev note_unresolved : Ternary → Bool → Bool
note_unresolved unknown saw = true
note_unresolved _ saw = saw

abbrev note_id : Ternary → Bool → Option String → Option String → Option String
note_id unknown false id new = new
note_id _ saw id new = id

abbrev pub is_definite_true : Ternary → Bool
is_definite_true is_true = true
is_definite_true _ = false

abbrev pub is_unresolved : Ternary → Bool
is_unresolved unknown = true
is_unresolved _ = false

module _ (action : String) (roles : List String) (environment : AttributeEnvironment) where
  -- The loop over the deny rules.
  unfoldable pub scan_deny : Bool → Option String → List Rule → DenyScan
  scan_deny saw id [] = finished saw id
  scan_deny saw id (rule ∷ rules) =
      let verdict = verdict_of rule environment in
      let skip = scan_deny saw id rules in
      let rest = scan_deny (note_unresolved verdict saw) (note_id verdict saw id rule.id) rules in
      if not (concerns action roles rule)
      then skip
      else if is_definite_true verdict
      then denied rule.id
      else rest

  -- The loop over the allow rules: the rule that grants, by its id.
  unfoldable pub scan_allow : List Rule → Option (Option String)
  scan_allow [] = none
  scan_allow (rule ∷ rules) =
      let rest = scan_allow rules in
      if concerns action roles rule && is_definite_true (verdict_of rule environment)
      then some rule.id
      else rest

  unfoldable pub scan_bucket : SubjectBucket → Bool × DecisionReason × Option String
  scan_bucket bucket = elim (scan_deny false none bucket.deny) [
    | denied id ↦ (false, explicit_deny, id)
    | finished true id ↦ (false, unresolved_deny, id)
    | finished false id ↦ elim (scan_allow bucket.allow) [
      | some granting ↦ (true, allowed, granting)
      | none ↦ (false, no_matching_rule, none)
    ]
  ]

-- A binding of the engine to a principal.
pub record PermissionChecker : Type 0 where
  pub access_control : AccessControl
  pub principal : Value
  pub effective : EffectiveRoles

abbrev listed_unknown : List String → Option (List String)
listed_unknown [] = none
listed_unknown (role ∷ more) = some (role ∷ more)

abbrev base : PermissionChecker → String → String → Bool × DecisionReason × Option String → Decision
base checker action subject (granted, reason, id) = record {
  allowed = granted;
  reason = reason;
  action = action;
  subject = subject;
  rule_id = id;
  unknown_roles = listed_unknown checker.effective.unknown;
}

-- `for`: reading `principal?.roles` may throw.
unfoldable pub for_principal : AccessControl → Value → Completion PermissionChecker
for_principal access_control principal = do
  claimed ← read_own principal "roles"
  normal (record {
    access_control = access_control;
    principal = principal;
    effective = resolve_effective_roles access_control.closures claimed;
  })

unfoldable pub environment_of : Value → Value → Completion AttributeEnvironment
environment_of principal context = do
  resource ← context_root context "resource"
  env ← context_root context "env"
  normal (record { principal = nullish_to_undefined principal; resource = resource; env = env })

-- `decide`, which is `explain`.
unfoldable pub explain : PermissionChecker → String → String → Value → Completion Decision
explain checker action subject context =
    let policy = checker.access_control.policy in
    if not (includes policy.actions action)
    then normal (base checker action subject (false, unknown_action, none))
    else if not (includes policy.subjects subject)
    then normal (base checker action subject (false, unknown_subject, none))
    else elim (lookup subject checker.access_control.index) [
      | none ↦ normal (base checker action subject (false, unknown_subject, none))
      | some bucket ↦ do
        environment ← environment_of checker.principal context
        normal (
            base checker action subject
              (scan_bucket action checker.effective.roles environment bucket))
    ]

unfoldable pub can : PermissionChecker → String → String → Value → Completion Bool
can checker action subject context = do
  decision ← explain checker action subject context
  normal decision.allowed

-- How `assertCan` ends: it throws on a denial, with the decision.
pub data Assertion : Type 0 where
  passed threw : Assertion
  permission_denied : Decision → Assertion

unfoldable pub assert_can : PermissionChecker → String → String → Value → Assertion
assert_can checker action subject context = elim (explain checker action subject context) [
  | normal decision ↦ if decision.allowed then passed else permission_denied decision
  | throw ↦ threw
]
