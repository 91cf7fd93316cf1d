-- ===== src/AccessControl/Engine/Order.antt =====
-- The order of the rules in a policy is immaterial.
use mathlib.Core.List.{Perm, Permᴰ}
use mathlib.Core.Logic.{∥∥₁_elim}
use mathlib.Core.Bool.{Bool-set}
use first_principles.Base.{◌≡◌, refl, sym, ◌∙◌, ap, String, Bool, true, List, any, arith}
use first_principles.AccessControl.Values.{Value, normal}
use first_principles.AccessControl.Resolve.{AttributeEnvironment}
use first_principles.AccessControl.Evaluate.{read_own}
use first_principles.AccessControl.Policy.{Rule, Policy, Decision}
use first_principles.AccessControl.Engine.{environment_of}
use first_principles.AccessControl.Engine.Answer.{reason_of, effective_roles, decide, decide-reason}
use first_principles.AccessControl.Engine.Reason.{denies, may_deny, grants, reason_for, is_allowed}

any-Permᴰ {ℓ} : {A : Type ℓ} (p : A → Bool) {xs ys : List A} → Permᴰ xs ys → any p xs ≡ any p ys
any-Permᴰ p Permᴰ.nil = refl
any-Permᴰ p (Permᴰ.cons {a} {b} {l₁} {l₂} e h) = rw (e, any-Permᴰ p h)
any-Permᴰ p (Permᴰ.swap {a} {b} {a'} {b'} e f) = rw (e, f) (ground arith)
any-Permᴰ p (Permᴰ.trans h k) = any-Permᴰ p h ∙ any-Permᴰ p k

any-Perm {ℓ} : {A : Type ℓ} (p : A → Bool) {xs ys : List A} → Perm xs ys → any p xs ≡ any p ys
any-Perm p h = ∥∥₁_elim h (Bool-set _ _) (any-Permᴰ p)

reason_of-Perm :
    (policy : Policy) (rules : List Rule) (roles : List String) (environment : AttributeEnvironment)
    (action subject : String)
    → Perm policy.rules rules
    → reason_of policy roles environment action subject
      ≡ reason_of (record policy { rules = rules }) roles environment action subject
unfolding reason_of reason_for
reason_of-Perm policy rules roles environment action subject h = ground (
  arith,
  any-Perm (denies action roles environment subject) h,
  any-Perm (may_deny action roles environment subject) h,
  any-Perm (grants action roles environment subject) h,
)

-- Under two validated policies whose rules differ only in their order, a request that can be read is
-- answered alike: with the same answer and for the same reason.
pub decide-Perm :
    (policy : Policy) (rules : List Rule) (principal claimed context : Value)
    (environment : AttributeEnvironment) (action subject : String)
    → Perm policy.rules rules
    → policy.branded ≡ true
    → read_own principal "roles" ≡ normal claimed
    → environment_of principal context ≡ normal environment
    → (d : Decision) × (e : Decision) × (decide policy principal action subject context ≡ normal d)
      × (decide (record policy { rules = rules }) principal action subject context ≡ normal e)
      × (d.reason ≡ e.reason)
      × (d.allowed ≡ e.allowed)
decide-Perm policy rules principal claimed context environment action subject h branded readable
      known =
    let (d, answers, reason, allows, _, _) =
      decide-reason policy principal claimed context environment action subject branded readable
        known in
    let (e, answers', reason', allows', _, _) =
      decide-reason (record policy { rules = rules }) principal claimed context environment action
        subject branded readable known in
    let same =
      reason
      ∙ reason_of-Perm policy rules (effective_roles policy claimed) environment action subject h
      ∙ sym reason' in
    (d, e, answers, answers', same, allows ∙ ap is_allowed same ∙ sym allows')
