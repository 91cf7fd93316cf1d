-- ===== src/AccessControl/Guard.antt =====
-- packages/access-control/src/internal/guard-core.ts: the authorization that every HTTP guard makes.
-- The functions of the application may throw or reject; their results are taken as awaited.
pub mod Outcome
use first_principles.Base.{
  String, Bool, true, false, not, Option, none, some, List, [], ◌∷◌, if◌then◌else◌,
}
use first_principles.AccessControl.Values.{
  Value, undefined, obj, given, end, field, Completion, normal, throw, ◌>>=◌,
}
use first_principles.AccessControl.Policy.{Decision}
use first_principles.AccessControl.Engine.{AccessControl, PermissionChecker, for_principal, explain}

pub record GuardOptions (Request : Type 0) : Type 0 where
  pub get_principal : Request → Completion Value
  pub on_deny : Option (Decision → Request → Completion (Unit {0}))

pub record PermissionRequirement (Request : Type 0) : Type 0 where
  pub get_resource : Option (Request → Completion Value)
  pub get_env : Option (Request → Completion Value)

pub record PermissionGrant : Type 0 where
  pub action : String
  pub subject : String
  pub resource : Value
  pub env : Value
  pub decision : Decision

-- How `authorize` ends: with a grant, with the denial's error, or with an error of the application.
pub data Authorization : Type 0 where
  granted : PermissionGrant → Authorization
  permission_denied : Decision → Authorization
  failed : Authorization

abbrev pub call_if {ℓ} : {R : Type ℓ} → Option (R → Completion Value) → R → Completion Value
call_if none request = normal undefined
call_if (some f) request = f request

abbrev pub resource_reader :
    {R : Type 0} → Option (PermissionRequirement R) → Option (R → Completion Value)
resource_reader none = none
resource_reader (some requirement) = requirement.get_resource

abbrev pub env_reader :
    {R : Type 0} → Option (PermissionRequirement R) → Option (R → Completion Value)
env_reader none = none
env_reader (some requirement) = requirement.get_env

abbrev pub is_given {ℓ} : {A : Type ℓ} → Option A → Bool
is_given none = false
is_given (some _) = true

module _ {Request : Type 0} (access_control : AccessControl) (options : GuardOptions Request)
    (request : Request) (action subject : String) where
  abbrev pub context_with : Value → Value → Value
  context_with resource env = obj (field "resource" (given resource) (field "env" (given env) end))

  unfoldable pub explain_for : Value → Value → Value → Completion Decision
  explain_for principal resource env = do
    checker ← for_principal access_control principal
    explain checker action subject (context_with resource env)

  -- `onDeny` is called before the error is thrown, and may throw itself. Beside the outcome stand the
  -- decisions that were handed to it.
  unfoldable pub refuse :
      Option (Decision → Request → Completion (Unit {0})) → Decision → Authorization × List Decision
  refuse none decision = (permission_denied decision, [])
  refuse (some report) decision = elim (report decision request) [
    | normal _ ↦ (permission_denied decision, decision ∷ [])
    | throw ↦ (failed, decision ∷ [])
  ]

  unfoldable pub conclude : Value → Value → Decision → Authorization × List Decision
  unfolding refuse
  conclude resource env decision =
      if not decision.allowed then refuse options.on_deny decision else (
        granted (record {
          action = action;
          subject = subject;
          resource = resource;
          env = env;
          decision = decision;
        }),
        [],
      )

  abbrev concluded : Completion (Value × Value × Decision) → Authorization × List Decision
  concluded throw = (failed, [])
  concluded (normal (resource, env, decision)) = conclude resource env decision

  -- What is awaited and decided before the outcome.
  unfoldable pub gather :
      Option (PermissionRequirement Request) → Completion (Value × Value × Decision)
  gather requirement = do
    principal ← options.get_principal request
    resource ← call_if (resource_reader requirement) request
    env ← call_if (env_reader requirement) request
    decision ← explain_for principal resource env
    normal (resource, env, decision)

  unfoldable pub authorize : Option (PermissionRequirement Request) → Authorization × List Decision
  unfolding conclude
  authorize requirement = concluded (gather requirement)
