-- ===== src/AccessControl/Engine/Answer.antt =====
-- The whole answer of the engine: the index by subject, the principal, the context and the rules.
use first_principles.Base.Maps.{map_set, lookup-map_set}
use first_principles.Base.{
  ◌≡◌, refl, String, Bool, true, false, not, Option, none, some, List, [], ◌∷◌, if◌then◌else◌,
  str_eq_iff, includes, lookup, arith,
}
use first_principles.AccessControl.Values.{Value, Completion, normal, ◌>>=◌}
use first_principles.AccessControl.Resolve.{AttributeEnvironment}
use first_principles.AccessControl.Roles.{build_role_closures, resolve_effective_roles}
use first_principles.AccessControl.Evaluate.{read_own}
use first_principles.AccessControl.Policy.{
  Rule, Policy, DecisionReason, unknown_action, unknown_subject, Decision,
}
use first_principles.AccessControl.Engine.{
  bucket_of, Index, build_index, AccessControl, create_access_control, scan_bucket,
  PermissionChecker, for_principal, environment_of, explain, base,
}
use first_principles.AccessControl.Engine.Reason.{is_allowed, reason_for, scan_bucket-reason}

lookup-build_index :
    (rules : List Rule) (index : Index) (subjects : List String) (subject : String)
    → lookup subject (build_index rules index subjects)
      ≡ (if includes subjects subject then some (bucket_of rules subject) else lookup subject index)
unfolding build_index
lookup-build_index rules index [] subject = refl
lookup-build_index rules index (s ∷ subjects) subject = ground (
  arith,
  lookup-build_index rules (map_set index s (bucket_of rules s)) subjects subject,
  lookup-map_set index s subject (bucket_of rules s),
  str_eq_iff s subject,
)

-- The roles that a claim gives under a policy, and the reason for the whole answer.
abbrev pub effective_roles : Policy → Value → List String
effective_roles policy claimed =
    (resolve_effective_roles (build_role_closures policy.roles) claimed).roles

unfoldable pub reason_of :
    Policy → List String → AttributeEnvironment → String → String → DecisionReason
reason_of policy roles environment action subject =
    if not (includes policy.actions action)
    then unknown_action
    else if not (includes policy.subjects subject)
    then unknown_subject
    else reason_for action roles environment subject policy.rules

-- The engine that `createAccessControl` makes of a validated policy.
abbrev pub engine_of : Policy → AccessControl
engine_of policy = record {
  policy = policy;
  closures = build_role_closures policy.roles;
  index = build_index policy.rules [] policy.subjects;
}

abbrev pub checker_of : Policy → Value → Value → PermissionChecker
checker_of policy principal claimed = record {
  access_control = engine_of policy;
  principal = principal;
  effective = resolve_effective_roles (build_role_closures policy.roles) claimed;
}

-- A decision under a policy, from the principal to the answer.
unfoldable pub decide : Policy → Value → String → String → Value → Completion Decision
decide policy principal action subject context = do
  access_control ← create_access_control policy
  checker ← for_principal access_control principal
  explain checker action subject context

pub create_access_control-branded :
    (policy : Policy)
    → policy.branded ≡ true
    → create_access_control policy ≡ normal (engine_of policy)
unfolding create_access_control
create_access_control-branded policy branded = ground arith

module _ (policy : Policy) (principal claimed context : Value) (environment : AttributeEnvironment)
    (action subject : String) (branded : policy.branded ≡ true)
    (readable : read_own principal "roles" ≡ normal claimed)
    (known : environment_of principal context ≡ normal environment) where
  answer : Bool × DecisionReason × Option String
  answer =
      if not (includes policy.actions action)
      then (false, unknown_action, none)
      else if not (includes policy.subjects subject)
      then (false, unknown_subject, none)
      else scan_bucket action (effective_roles policy claimed) environment
          (bucket_of policy.rules subject)

  decide-answer :
      decide policy principal action subject context
      ≡ normal (base (checker_of policy principal claimed) action subject answer)
  unfolding decide for_principal explain answer
  decide-answer = ground (
    arith,
    create_access_control-branded policy branded,
    lookup-build_index policy.rules [] policy.subjects subject,
    readable,
    known,
  )

  answer-reason :
      (answer.1 ≡ reason_of policy (effective_roles policy claimed) environment action subject)
      × (answer.0 ≡ is_allowed answer.1)
  unfolding answer reason_of
  answer-reason = ground (
    arith,
    scan_bucket-reason action (effective_roles policy claimed) environment subject policy.rules,
  )

  -- If the principal's roles and the context can be read, the engine of a validated policy answers;
  -- its reason is the one that the applicable rules call for, and it allows with that reason alone.
  pub decide-reason :
      (d : Decision) × (decide policy principal action subject context ≡ normal d)
      × (d.reason ≡ reason_of policy (effective_roles policy claimed) environment action subject)
      × (d.allowed ≡ is_allowed d.reason)
      × (d.action ≡ action)
      × (d.subject ≡ subject)
  decide-reason = (
    base (checker_of policy principal claimed) action subject answer,
    decide-answer,
    answer-reason.0,
    answer-reason.1,
    refl,
    refl,
  )
