-- ===== src/AccessControl/Validate/Outcome.antt =====
-- What `parsePolicy` promises of the policy that it returns.
use first_principles.Base.{
  ◌≡◌, refl, sym, ap, ◌∙◌, ◌↔◌, true, false, Option, none, some, List, [], ◌∷◌, arith,
}
use first_principles.AccessControl.Values.{
  Value, undefined, num, str, bool, arr, obj, Fields, Items, items, Completion, normal, throw,
}
use first_principles.AccessControl.Evaluate.{read_own, max_condition_depth}
use first_principles.AccessControl.Policy.{Policy}
use first_principles.AccessControl.Validate.Checks.{
  Place, key, PolicyIssue, Check, completed, threw, done, reading, bind-done,
}
use first_principles.AccessControl.Validate.Conditions.{object_keys, check_condition}
use first_principles.AccessControl.Validate.Rules.{read_name_list, read_rules, check_keys, settled}
use first_principles.AccessControl.Validate.Declared.{IsCondition, AreRead, IsPolicy, role_names}
use first_principles.AccessControl.Validate.Sound.{check_levels-done}
use first_principles.AccessControl.Validate.Complete.{IsCondition-passes}
use first_principles.AccessControl.Validate.Accepted.{settled-done}
use first_principles.AccessControl.Validate.Selected.{read_name_list-done}
use first_principles.AccessControl.Validate.Collected.{read_rules-done}
use first_principles.AccessControl.Validate.Inherited.{read_roles-done}
use first_principles.AccessControl.Validate.{
  policy_keys, read_roles, read_policy, validate_policy, parsed, outcome, parse_policy,
}

-- A policy that is read from an object.
record IsRead (fs : Fields) (policy : Policy) : Type 0 where
  entries : Items
  from : read_own (obj fs) "rules" ≡ normal (arr entries)
  all : AreRead (items entries) policy.rules
  valid : IsPolicy policy

reading-done {ℓ} : {A : Type ℓ} (c : Completion A) (a : A) → reading c ≡ done a → c ≡ normal a
reading-done (normal b) a h = ground arith
reading-done throw a h = absurd (ground arith)

read_policy-done :
    (fs : Fields) (made : Option Policy)
    → read_policy fs ≡ done made
    → (policy : Policy) × (made ≡ some policy) × IsRead fs policy
unfolding read_policy
read_policy-done fs made h =
    let (a, _, h1) = bind-done (reading (read_own (obj fs) "actions")) _ made h in
    let (actions, acts, h2) = bind-done (read_name_list a (key "actions" ∷ [])) _ made h1 in
    let (b, _, h3) = bind-done (reading (read_own (obj fs) "subjects")) _ made h2 in
    let (subjects, subs, h4) = bind-done (read_name_list b (key "subjects" ∷ [])) _ made h3 in
    let (c, _, h5) = bind-done (reading (read_own (obj fs) "roles")) _ made h4 in
    let (graph, read, h6) = bind-done (read_roles c) _ made h5 in
    let (d, found, h7) = bind-done (reading (read_own (obj fs) "rules")) _ made h6 in
    let (rules, ruled, h8) =
      bind-done (read_rules actions subjects (role_names graph) d) _ made h7 in
    let (_, _, last) = bind-done (check_keys policy_keys [] (object_keys fs)) _ made h8 in
    let (are_actions, some_action) = read_name_list-done a (key "actions" ∷ []) actions acts in
    let (are_subjects, some_subject) = read_name_list-done b (key "subjects" ∷ []) subjects subs in
    let (xs, is, all, are_rules, different) =
      read_rules-done actions subjects (role_names graph) d rules ruled in
    (
      record {
        branded = false;
        actions = actions;
        subjects = subjects;
        roles = graph;
        rules = rules;
      },
      ground (arith, last),
      record {
        entries = xs;
        from = reading-done (read_own (obj fs) "rules") d found ∙ ap normal is;
        all = all;
        valid = record {
          actions = are_actions;
          some_action = some_action;
          subjects = are_subjects;
          some_subject = some_subject;
          roles = read_roles-done c graph read;
          rules = are_rules;
          distinct_ids = different;
        };
      },
    )

read_policy-IsRead :
    (fs : Fields) (policy : Policy) (issues : List PolicyIssue)
    → settled (read_policy fs) ≡ completed (some policy) issues
    → IsRead fs policy
read_policy-IsRead fs policy issues h =
    let (made, same, read) =
      read_policy-done fs (some policy) (settled-done (read_policy fs) policy issues h) in
    let is : made ≡ policy = ground (arith, same) in rw (← is) read

validate_policy-done :
    (input : Value) (policy : Policy) (issues : List PolicyIssue)
    → validate_policy input ≡ completed (some policy) issues
    → (fs : Fields) × (input ≡ obj fs) × IsRead fs policy
unfolding validate_policy
validate_policy-done (obj fs) policy issues h = (fs, refl, read_policy-IsRead fs policy issues h)
validate_policy-done undefined policy issues h = absurd (ground arith)
validate_policy-done Value.null policy issues h = absurd (ground arith)
validate_policy-done Value.callable policy issues h = absurd (ground arith)
validate_policy-done (bool b) policy issues h = absurd (ground arith)
validate_policy-done (num m) policy issues h = absurd (ground arith)
validate_policy-done (str t) policy issues h = absurd (ground arith)
validate_policy-done (arr xs) policy issues h = absurd (ground arith)

-- The policy before it is branded.
outcome-parsed :
    (c : Check (Option Policy)) (policy : Policy)
    → outcome c ≡ normal (parsed policy)
    → (raw : Policy) × (issues : List PolicyIssue) × (c ≡ completed (some raw) issues)
      × (policy ≡ record raw { branded = true })
outcome-parsed (completed (some raw) issues) policy h = (raw, issues, refl, ground arith)
outcome-parsed (completed none issues) policy h = absurd (ground arith)
outcome-parsed threw policy h = absurd (ground arith)

branded-IsPolicy : (raw : Policy) → IsPolicy raw → IsPolicy (record raw { branded = true })
branded-IsPolicy raw h = record {
  actions = h.actions;
  some_action = h.some_action;
  subjects = h.subjects;
  some_subject = h.some_subject;
  roles = h.roles;
  rules = h.rules;
  distinct_ids = h.distinct_ids;
}

-- A policy that `parsePolicy` returns carries the brand and is well-formed: it declares at least one action
-- and one subject, no declared name is empty or `*`, role names can be used as keys, roles inherit from
-- declared roles, rules refer to declared names, have as guards conditions of known form and at most 32 levels, and
-- have different ids. In one point the form is laxer than the documentation of conditions: a literal is finite, but
-- the list of `in` or `nin` may hold NaN and infinities.
pub parse_policy-IsPolicy :
    (input : Value) (policy : Policy)
    → parse_policy input ≡ normal (parsed policy)
    → (policy.branded ≡ true) × IsPolicy policy
unfolding parse_policy
parse_policy-IsPolicy input policy h =
    let (raw, issues, e, same) = outcome-parsed (validate_policy input) policy h in
    let (fs, _, read) = validate_policy-done input raw issues e in
    rw same (refl, branded-IsPolicy raw read.valid)

-- No rule is lost by `parsePolicy`: the policy has a rule for each entry of the `rules` array, in its order, and a
-- rule has a guard exactly if its entry has a property `when`.
pub parse_policy-AreRead :
    (fs : Fields) (entries : Items) (policy : Policy)
    → read_own (obj fs) "rules" ≡ normal (arr entries)
    → parse_policy (obj fs) ≡ normal (parsed policy)
    → AreRead (items entries) policy.rules
unfolding parse_policy validate_policy
parse_policy-AreRead fs entries policy found h =
    let (raw, issues, e, same) = outcome-parsed (validate_policy (obj fs)) policy h in
    let read = read_policy-IsRead fs raw issues e in
    let there : normal (arr entries) ≡ normal (arr read.entries) = sym found ∙ read.from in
    let its : entries ≡ read.entries = ground (arith, there) in
    let kept : AreRead (items read.entries) policy.rules = rw same read.all in rw its kept

-- The conditions that `checkCondition` returns as they are, without an issue, are exactly the well-formed
-- conditions of at most 32 levels: those that use a known operator on dotted attribute paths, combined by `not` and
-- by non-empty `all` and `any`, and compare with attributes or literals. A comparison takes a primitive that is no NaN
-- and not infinite, `in` and `nin` a non-empty list of primitives, where NaN and infinities are let through although
-- the documentation of conditions excludes them.
pub check_condition-IsCondition :
    (c : Value) (path : List Place)
    → (check_condition c path ≡ done (some c)) ↔ IsCondition max_condition_depth c
unfolding check_condition
check_condition-IsCondition c path =
    (check_levels-done max_condition_depth c path c, λ is. IsCondition-passes path is)

-- What `checkCondition` returns without an issue passes the check again, wherever it stands, and is returned
-- as it is.
pub check_condition-again :
    (v c : Value) (path other : List Place)
    → check_condition v path ≡ done (some c)
    → check_condition c other ≡ done (some c)
unfolding check_condition
check_condition-again v c path other h =
    IsCondition-passes other (check_levels-done max_condition_depth v path c h)
