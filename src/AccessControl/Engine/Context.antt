-- ===== src/AccessControl/Engine/Context.antt =====
-- What is granted without the resource or the environment is granted with it. That is about a root that is not
-- supplied; an attribute that a supplied root lacks counts as absent, and a condition may ask for that.
use first_principles.Base.{
  ◌≡◌, refl, ◌≢◌, String, true, false, Option, none, some, List, [], ◌∷◌, any, All, arith,
}
use first_principles.AccessControl.Truth.{Ternary, is_true, is_false, unknown}
use first_principles.AccessControl.Values.{Value, undefined, normal, throw}
use first_principles.AccessControl.Resolve.{AttributeEnvironment}
use first_principles.AccessControl.Resolve.Context.{Within}
use first_principles.AccessControl.Evaluate.{read_own}
use first_principles.AccessControl.Evaluate.Monotone.{evaluate_condition_definite}
use first_principles.AccessControl.Policy.{Rule, Policy, Decision, DecisionReason, allowed}
use first_principles.AccessControl.Engine.{try_verdict, verdict_of, environment_of}
use first_principles.AccessControl.Engine.Answer.{reason_of, effective_roles, decide, decide-reason}
use first_principles.AccessControl.Engine.Reason.{denies, may_deny, grants, reason_for, is_allowed}

-- The rule's condition is evaluated to its end.
abbrev pub Evaluates : AttributeEnvironment → Rule → Type 0
Evaluates environment rule = try_verdict rule.when environment ≢ throw

module _ (a b : AttributeEnvironment) (h : Within a b) where
  try_verdict-definite :
      (when : Option Value) (t : Ternary)
      → try_verdict when a ≡ normal t
      → t ≢ unknown
      → try_verdict when b ≢ throw
      → try_verdict when b ≡ normal t
  unfolding try_verdict
  try_verdict-definite none t e d n = e
  try_verdict-definite (some undefined) t e d n = e
  try_verdict-definite (some c) t e d n = evaluate_condition_definite a b c t h e d n

  verdict_of-definite :
      (rule : Rule) (t : Ternary)
      → Evaluates b rule
      → verdict_of rule a ≡ t
      → t ≢ unknown
      → verdict_of rule b ≡ t
  unfolding verdict_of
  verdict_of-definite rule t n e d = ground (arith, try_verdict-definite rule.when t)

  module _ (action : String) (roles : List String) (subject : String) where
    keeps_silent :
        (rules : List Rule)
        → All (Evaluates b) rules
        → any (denies action roles a subject) rules ≡ false
        → any (may_deny action roles a subject) rules ≡ false
        → (any (denies action roles b subject) rules ≡ false)
          × (any (may_deny action roles b subject) rules ≡ false)
    keeps_silent [] n e f = (refl, refl)
    keeps_silent (rule ∷ rules) n e f =
        ground (arith, verdict_of-definite rule is_false n.0, keeps_silent rules n.1)

    keeps_grant :
        (rules : List Rule)
        → All (Evaluates b) rules
        → any (grants action roles a subject) rules ≡ true
        → any (grants action roles b subject) rules ≡ true
    keeps_grant [] n e = e
    keeps_grant (rule ∷ rules) n e =
        ground (arith, verdict_of-definite rule is_true n.0, keeps_grant rules n.1)

  reason_of-Within :
      (policy : Policy) (roles : List String) (action subject : String)
      → All (Evaluates b) policy.rules
      → reason_of policy roles a action subject ≡ allowed
      → reason_of policy roles b action subject ≡ allowed
  unfolding reason_of reason_for
  reason_of-Within policy roles action subject n e = ground (
    arith,
    keeps_silent action roles subject policy.rules n,
    keeps_grant action roles subject policy.rules n,
  )

allowed_of_is_allowed : (r : DecisionReason) → is_allowed r ≡ true → r ≡ allowed
allowed_of_is_allowed r e = ground arith

-- A request that a validated policy grants while the resource or the environment is missing is
-- granted when they are supplied, whatever they hold, as long as no condition throws on them.
pub decide-Within :
    (policy : Policy) (principal claimed : Value) (action subject : String) (less more : Value)
    (a b : AttributeEnvironment) (d : Decision)
    → policy.branded ≡ true
    → read_own principal "roles" ≡ normal claimed
    → environment_of principal less ≡ normal a
    → environment_of principal more ≡ normal b
    → Within a b
    → All (Evaluates b) policy.rules
    → decide policy principal action subject less ≡ normal d
    → d.allowed ≡ true
    → (e : Decision) × (decide policy principal action subject more ≡ normal e) × (e.allowed ≡ true)
decide-Within policy principal claimed action subject less more a b d branded readable ka kb h n
      asked granted =
    let (d', answers, reason, allows, _, _) =
      decide-reason policy principal claimed less a action subject branded readable ka in
    let (e, answers', reason', allows', _, _) =
      decide-reason policy principal claimed more b action subject branded readable kb in
    let same : d' ≡ d = ground arith in
    let first = allowed_of_is_allowed d'.reason (ground arith) in
    let second =
      reason_of-Within a b h policy (effective_roles policy claimed) action subject n
        (ground arith) in
    (e, answers', ground arith)
