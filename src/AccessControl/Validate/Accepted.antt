-- ===== src/AccessControl/Validate/Accepted.antt =====
-- A rule that `checkRule` returns: it refers to declared names only, and it keeps its guard.
use first_principles.Base.{
  ◌≡◌, sym, ap, ◌∙◌, ◌≢◌, ◌⊎◌, inl, inr, String, true, false, Option, none, some, List, [], ◌∷◌,
  str_eq, Bool-cases, Option-cases, arith,
}
use first_principles.AccessControl.Values.{
  Value, undefined, num, str, bool, arr, obj, Fields, nil, cons, items,
}
use first_principles.AccessControl.Evaluate.{is_some, read_own, has_own, max_condition_depth}
use first_principles.AccessControl.Policy.{Effect, Selector, RoleList, Rule}
use first_principles.AccessControl.Validate.Checks.{
  Place, PolicyIssue, Check, completed, threw, done, reading, bind-done,
}
use first_principles.AccessControl.Validate.Conditions.{child, check_condition, object_keys}
use first_principles.AccessControl.Validate.Rules.{
  for_each, select_name, select_all, read_selector, read_rule_roles, read_effect, read_id,
  read_description, optionally, rule_keys, check_keys, make_rule, settled, read_details, read_rule,
}
use first_principles.AccessControl.Validate.Declared.{
  IsSelection, IsRoleList, IsGuard, is_decided, IsRule,
}
use first_principles.AccessControl.Validate.Sound.{check_levels-done}
use first_principles.AccessControl.Validate.Loud.{check_levels-IsLoud}
use first_principles.AccessControl.Validate.Selected.{read_selector-done, read_rule_roles-done}

pub settled-done {ℓ} :
    {A : Type ℓ} (c : Check (Option A)) (a : A) (issues : List PolicyIssue)
    → settled c ≡ completed (some a) issues
    → c ≡ done (some a)
settled-done (completed b []) a issues h = ground arith
settled-done (completed b (issue ∷ more)) a issues h = absurd (ground arith)
settled-done threw a issues h = absurd (ground arith)

pub settled-quiet {ℓ} :
    {A : Type ℓ} (c : Check (Option A)) (o : Option A) → settled c ≡ done o → c ≡ done o
settled-quiet (completed b []) o h = h
settled-quiet (completed b (issue ∷ more)) o h = absurd (ground arith)
settled-quiet threw o h = absurd (ground arith)

-- A property that a rule may lack.
optionally-done {ℓ} :
    {A : Type ℓ} (value : Value) (name : String) (absent : A) (check : Value → Check A) (a : A)
    → optionally value name absent check ≡ done a
    → ((has_own value name ≡ false) × (a ≡ absent))
      ⊎ ((has_own value name ≡ true) × ((raw : Value) × (check raw ≡ done a)))
optionally-done value name absent check a h = elim (Bool-cases (has_own value name)) [
  | inl own ↦
      let (raw, _, checked) =
        bind-done (reading (read_own value name)) check a (ground (arith, own)) in
      inr (own, (raw, checked))
  | inr lacks ↦ inl (lacks, ground (arith, lacks))
]

read_effect-done :
    (path : List Place) (v : Value) (effect : Effect)
    → read_effect path v ≡ done effect
    → is_decided effect ≡ true
unfolding read_effect
read_effect-done path (str s) effect h = elim (Bool-cases (str_eq s "allow")) [
  | inl allows ↦ ground (arith, h, allows)
  | inr not_allow ↦ elim (Bool-cases (str_eq s "deny")) [
    | inl denies ↦ ground (arith, h, not_allow, denies)
    | inr not_deny ↦ absurd (ground (arith, h, not_allow, not_deny))
  ]
]
read_effect-done path undefined effect h = absurd (ground arith)
read_effect-done path Value.null effect h = absurd (ground arith)
read_effect-done path Value.callable effect h = absurd (ground arith)
read_effect-done path (bool b) effect h = absurd (ground arith)
read_effect-done path (num m) effect h = absurd (ground arith)
read_effect-done path (arr xs) effect h = absurd (ground arith)
read_effect-done path (obj fs) effect h = absurd (ground arith)

-- Its guard is a condition, and there is one if the rule has the property.
optionally-when :
    (value : Value) (path : List Place) (guard : Option Value)
    → optionally value "when" none (λ raw. check_condition raw path) ≡ done guard
    → IsGuard guard × (is_some guard ≡ has_own value "when")
unfolding check_condition
optionally-when value path guard h =
    elim (optionally-done value "when" none (λ raw. check_condition raw path) guard h) [
      | inl (lacks, absent) ↦ rw absent (tt, sym lacks)
      | inr (own, (raw, checked)) ↦ elim (Option-cases guard) [
        | inl gone ↦
            absurd (check_levels-IsLoud max_condition_depth raw path (checked ∙ ap done gone))
        | inr (condition, is) ↦ rw is (
          check_levels-done max_condition_depth raw path condition (checked ∙ ap done is),
          sym own,
        )
      ]
    ]

-- A selector that passes is there.
read_selector-IsLoud :
    (declared : List String) (path : List Place) (v : Value)
    → read_selector declared path v ≢ done none
unfolding read_selector
read_selector-IsLoud declared path (str s) h = absurd (ground arith)
read_selector-IsLoud declared path (arr nil) h = absurd (ground arith)
read_selector-IsLoud declared path (arr (cons s rest)) h =
    let (chosen, e, last) = bind-done (select_all declared path s rest) _ none h in
    let (selected, _, last') =
      bind-done (for_each (select_name declared) path 0 [] (items (cons s rest))) _ chosen e in
    absurd (ground (arith, last, last'))
read_selector-IsLoud declared path undefined h = absurd (ground arith)
read_selector-IsLoud declared path Value.null h = absurd (ground arith)
read_selector-IsLoud declared path Value.callable h = absurd (ground arith)
read_selector-IsLoud declared path (bool b) h = absurd (ground arith)
read_selector-IsLoud declared path (num m) h = absurd (ground arith)
read_selector-IsLoud declared path (obj fs) h = absurd (ground arith)

module _ (actions subjects roles : List String) where
  optionally-roles :
      (value : Value) (path : List Place) (list : RoleList)
      → optionally value "roles" RoleList.unrestricted (read_rule_roles roles path) ≡ done list
      → IsRoleList roles list
  optionally-roles value path list h =
      elim (optionally-done value "roles" RoleList.unrestricted (read_rule_roles roles path) list
        h) [
          | inl (_, absent) ↦ rw absent tt
          | inr (_, (raw, checked)) ↦ read_rule_roles-done roles path raw list checked
        ]

  -- What is known of a rule once its details are read.
  abbrev Detailed : Fields → Effect → Option Selector → Option Selector → Option Rule → Type 0
  Detailed fs effect rule_actions rule_subjects made =
      (id : Option String) × (description : Option String) × (list : RoleList) × (guard : Option
        Value)
      × (made ≡ make_rule id description effect rule_actions rule_subjects list guard)
      × IsRoleList roles list
      × IsGuard guard
      × (is_some guard ≡ has_own (obj fs) "when")

  read_details-done :
      (fs : Fields) (path : List Place) (effect : Effect)
      (rule_actions rule_subjects : Option Selector) (made : Option Rule)
      → read_details actions subjects roles fs path effect rule_actions rule_subjects ≡ done made
      → Detailed fs effect rule_actions rule_subjects made
  unfolding read_details
  read_details-done fs path effect rule_actions rule_subjects made h =
      let value = obj fs in
      let (list, roles_read, h1) =
        bind-done
          (optionally value "roles" RoleList.unrestricted
            (read_rule_roles roles (child path "roles")))
          _ made h in
      let (guard, guard_read, h2) =
        bind-done (optionally value "when" none (λ raw. check_condition raw (child path "when"))) _
          made h1 in
      let (id, _, h3) =
        bind-done (optionally value "id" none (read_id (child path "id"))) _ made h2 in
      let (description, _, h4) =
        bind-done
          (optionally value "description" none (read_description (child path "description"))) _ made
          h3 in
      let (_, _, last) = bind-done (check_keys rule_keys path (object_keys fs)) _ made h4 in
      let (guarded, kept) = optionally-when value (child path "when") guard guard_read in
      let is_list = optionally-roles value (child path "roles") list roles_read in
      (id, description, list, guard, ground (arith, last), is_list, guarded, kept)

  -- The rule that is returned is one, and keeps its guard.
  abbrev IsAccepted : Fields → Option Rule → Type 0
  IsAccepted fs made =
      (rule : Rule) × (made ≡ some rule)
      × IsRule actions subjects roles rule
      × (is_some rule.when ≡ has_own (obj fs) "when")

  -- A selector that passes is that of the rule.
  abbrev Chosen : List String → Option Selector → Type 0
  Chosen declared selector =
      (chosen : Selector) × (selector ≡ some chosen) × IsSelection declared chosen

  read_selector-Chosen :
      (declared : List String) (path : List Place) (v : Value) (selector : Option Selector)
      → read_selector declared path v ≡ done selector
      → Chosen declared selector
  read_selector-Chosen declared path v selector h = elim (Option-cases selector) [
    | inl gone ↦ absurd (read_selector-IsLoud declared path v (h ∙ ap done gone))
    | inr (chosen, is) ↦ (chosen, is, read_selector-done declared path v chosen (h ∙ ap done is))
  ]

  make_rule-IsAccepted :
      (fs : Fields) (effect : Effect) (rule_actions rule_subjects : Option Selector)
      (made : Option Rule)
      → is_decided effect ≡ true
      → Chosen actions rule_actions
      → Chosen subjects rule_subjects
      → Detailed fs effect rule_actions rule_subjects made
      → IsAccepted fs made
  make_rule-IsAccepted fs effect rule_actions rule_subjects made decided acts on details =
      let (some_actions, is_actions, acts_known) = acts in
      let (some_subjects, is_subjects, on_known) = on in
      let (id, description, list, guard, same, is_list, guarded, kept) = details in
      let rule : Rule = record {
        id = id;
        description = description;
        effect = effect;
        actions = some_actions;
        subjects = some_subjects;
        roles = list;
        when = guard;
      } in
      (
        rule,
        ground (arith, same, is_actions, is_subjects),
        record {
          effect = decided;
          actions = acts_known;
          subjects = on_known;
          roles = is_list;
          guard = guarded;
        },
        kept,
      )

  pub read_rule-done :
      (fs : Fields) (path : List Place) (made : Option Rule)
      → read_rule actions subjects roles fs path ≡ done made
      → IsAccepted fs made
  unfolding read_rule
  read_rule-done fs path made h =
      let (v, _, h1) = bind-done (reading (read_own (obj fs) "effect")) _ made h in
      let (effect, effect_read, h2) = bind-done (read_effect (child path "effect") v) _ made h1 in
      let (a, _, h3) = bind-done (reading (read_own (obj fs) "actions")) _ made h2 in
      let (acts, acts_read, h4) =
        bind-done (read_selector actions (child path "actions") a) _ made h3 in
      let (b, _, h5) = bind-done (reading (read_own (obj fs) "subjects")) _ made h4 in
      let (on, on_read, h6) =
        bind-done (read_selector subjects (child path "subjects") b) _ made h5 in
      make_rule-IsAccepted fs effect acts on made
        (read_effect-done (child path "effect") v effect effect_read)
        (read_selector-Chosen actions (child path "actions") a acts acts_read)
        (read_selector-Chosen subjects (child path "subjects") b on on_read)
        (read_details-done fs path effect acts on made h6)
