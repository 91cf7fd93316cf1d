-- ===== src/AccessControl/Guard/Outcome.antt =====
-- What a guard lets through, and what it reports.
use first_principles.Base.{
  ◌≡◌, refl, ◌⊎◌, inl, inr, String, true, false, Option, List, [], ◌∷◌, arith, if◌then◌else◌,
}
use first_principles.AccessControl.Values.{Value, obj, given, field, end, Completion, normal, throw}
use first_principles.AccessControl.Policy.{Decision}
use first_principles.AccessControl.Engine.{AccessControl, PermissionChecker, for_principal, explain}
use first_principles.AccessControl.Guard.{
  GuardOptions, PermissionRequirement, PermissionGrant, Authorization, granted, permission_denied,
  call_if, resource_reader, env_reader, is_given, explain_for, conclude, gather, authorize,
}

Completion-cases {ℓ} : {A : Type ℓ} (m : Completion A) → (m ≡ throw) ⊎ ((a : A) × (m ≡ normal a))
Completion-cases (normal a) = inr (a, refl)
Completion-cases throw = inl refl

module _ {Request : Type 0} (access_control : AccessControl) (options : GuardOptions Request)
    (request : Request) (action subject : String)
    (requirement : Option (PermissionRequirement Request)) where
  -- The principal, the resource and the environment were read, and the engine decided on them.
  pub record Rests (resource env : Value) (decision : Decision) : Type 0 where
    pub principal : Value
    pub fetched : options.get_principal request ≡ normal principal
    pub loaded : call_if (resource_reader requirement) request ≡ normal resource
    pub read : call_if (env_reader requirement) request ≡ normal env
    pub checker : PermissionChecker
    pub checks : for_principal access_control principal ≡ normal checker
    pub decided :
        explain checker action subject
          (obj (field "resource" (given resource) (field "env" (given env) end)))
        ≡ normal decision

  gather-Rests :
      (resource env : Value) (decision : Decision)
      → gather access_control options request action subject requirement
        ≡ normal (resource, env, decision)
      → Rests resource env decision
  unfolding gather explain_for
  gather-Rests resource env decision h = elim (Completion-cases (options.get_principal request)) [
    | inl e ↦ absurd (ground arith)
    | inr (p, fetched) ↦ elim (Completion-cases (call_if (resource_reader requirement) request)) [
      | inl e ↦ absurd (ground arith)
      | inr (r, loaded) ↦ elim (Completion-cases (call_if (env_reader requirement) request)) [
        | inl e ↦ absurd (ground arith)
        | inr (v, read) ↦ elim (Completion-cases (for_principal access_control p)) [
          | inl e ↦ absurd (ground arith)
          | inr (c, checks) ↦ record {
            principal = p;
            fetched = fetched;
            loaded = ground arith;
            read = ground arith;
            checker = c;
            checks = checks;
            decided = ground arith;
          }
        ]
      ]
    ]
  ]

  gather-eq :
      (resource env : Value) (decision : Decision)
      → Rests resource env decision
      → gather access_control options request action subject requirement
        ≡ normal (resource, env, decision)
  unfolding gather explain_for
  gather-eq resource env decision rests =
      ground (arith, rests.fetched, rests.loaded, rests.read, rests.checks, rests.decided)

  -- The grant of a request.
  abbrev pub grant_of : Value → Value → Decision → PermissionGrant
  grant_of resource env decision = record {
    action = action;
    subject = subject;
    resource = resource;
    env = env;
    decision = decision;
  }

  -- A request passes with a grant exactly if what the application supplies can be read, and the engine,
  -- asked for the principal about the action and the subject with that resource and that environment as the
  -- context, answers and allows it; the grant then carries that action, subject, resource, environment and decision, and
  -- nothing is reported. It ends in the denial's error only if the engine refuses it in this way, and then
  -- the decision was reported once, if there is a function to report to.
  pub authorize-Rests :
      (outcome : Authorization) (reported : List Decision)
      → authorize access_control options request action subject requirement ≡ (outcome, reported)
      → ((grant : PermissionGrant)
          → outcome ≡ granted grant
          → Rests grant.resource grant.env grant.decision
            × (grant ≡ grant_of grant.resource grant.env grant.decision)
            × (grant.decision.allowed ≡ true)
            × (reported ≡ []))
        × ((resource env : Value) (d : Decision)
            → Rests resource env d
            → d.allowed ≡ true
            → (outcome ≡ granted (grant_of resource env d)) × (reported ≡ []))
        × ((d : Decision)
            → outcome ≡ permission_denied d
            → ((resource : Value) × (env : Value) × Rests resource env d)
              × (d.allowed ≡ false)
              × (reported ≡ (if is_given options.on_deny then d ∷ [] else [])))
  unfolding authorize conclude
  authorize-Rests outcome reported h =
      elim (Completion-cases (gather access_control options request action subject requirement)) [
        | inl e ↦ (
          λ g k. absurd (ground arith),
          λ r v d rests yes. absurd (ground (arith, gather-eq r v d rests)),
          λ d k. absurd (ground arith),
        )
        | inr ((resource, env, decision), e) ↦ (
          λ g k. (
            gather-Rests g.resource g.env g.decision (ground arith),
            ground arith,
            ground arith,
            ground arith,
          ),
          λ r v d rests yes.
              (ground (arith, gather-eq r v d rests), ground (arith, gather-eq r v d rests)),
          λ d k. (
            (resource, env, gather-Rests resource env d (ground arith)),
            ground arith,
            ground arith,
          ),
        )
      ]
