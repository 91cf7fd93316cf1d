-- ===== src/AccessControl/Policy.antt =====
-- packages/access-control/src/policy.ts and decision.ts: the rules of a policy, and what a decision
-- says. A rule's field that is not what its type says is `malformed`, or `other`.
use first_principles.Base.{String, Bool, Option, List}
use first_principles.AccessControl.Values.{Value}
use first_principles.AccessControl.Roles.{Inherits}

pub data Effect : Type 0 where
  allow deny other : Effect

-- `'*'`, a list of names, or neither.
pub data Selector : Type 0 where
  wildcard malformed : Selector
  names : List String → Selector

pub data RoleList : Type 0 where
  unrestricted malformed : RoleList
  listed : List String → RoleList

pub record Rule : Type 0 where
  pub id : Option String
  pub description : Option String
  pub effect : Effect
  pub actions : Selector
  pub subjects : Selector
  pub roles : RoleList
  pub when : Option Value

-- `branded` is whether the object carries the mark of a validated policy.
pub record Policy : Type 0 where
  pub branded : Bool
  pub actions : List String
  pub subjects : List String
  pub roles : Inherits
  pub rules : List Rule

pub data DecisionReason : Type 0 where
  allowed explicit_deny unresolved_deny no_matching_rule unknown_action unknown_subject :
      DecisionReason

pub record Decision : Type 0 where
  pub allowed : Bool
  pub reason : DecisionReason
  pub action : String
  pub subject : String
  pub rule_id : Option String
  pub unknown_roles : Option (List String)
