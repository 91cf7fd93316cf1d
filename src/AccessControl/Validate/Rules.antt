-- ===== src/AccessControl/Validate/Rules.antt =====
-- packages/access-control/src/internal/validate.ts: `readNameList` and `checkRule`.
use first_principles.Base.{
  ℕ, ◌+◌, String, not, Option, none, some, List, [], ◌∷◌, ◌++◌, if◌then◌else◌, str_eq, includes,
}
use first_principles.AccessControl.Values.{
  Value, str, arr, obj, Slot, given, throwing, Items, nil, cons, Fields, items,
}
use first_principles.AccessControl.Evaluate.{read_own, has_own}
use first_principles.AccessControl.Roles.{add}
use first_principles.AccessControl.Policy.{
  Effect, allow, deny, other, Selector, wildcard, names, RoleList, unrestricted, listed, Rule,
}
use first_principles.AccessControl.Validate.Checks.{
  Place, key, not_an_array, not_an_object, not_a_string, not_a_name, no_names, wildcard_name,
  extra_keys, no_effect, no_selected, undeclared, empty_id, duplicate_id, Check, completed, threw,
  done, complain, reading, ◌>>=◌,
}
use first_principles.AccessControl.Validate.Conditions.{
  child, nth, object_keys, others, is_empty, check_condition,
}

-- `value.forEach` over an array with an accumulator.
unfoldable pub for_each {ℓ} :
    {S : Type ℓ} → (S → Value → List Place → Check S) → List Place → ℕ → S → List Slot → Check S
for_each visit path i s [] = done s
for_each visit path i s (throwing ∷ rest) = threw
for_each visit path i s (given v ∷ rest) = do
  next ← visit s v (nth path i)
  for_each visit path (i + 1) next rest

-- One declared action or subject.
unfoldable pub declare_name : List String → Value → List Place → Check (List String)
declare_name declared (str s) path =
    if str_eq s ""
    then complain path not_a_name declared
    else if str_eq s "*"
    then complain path wildcard_name declared
    else done (add declared s)
declare_name declared _ path = complain path not_a_name declared

unfoldable pub read_name_list : Value → List Place → Check (List String)
read_name_list (arr nil) path = complain path no_names []
read_name_list (arr (cons s rest)) path = for_each declare_name path 0 [] (items (cons s rest))
read_name_list _ path = complain path not_an_array []

-- One name that a rule selects among the declared ones.
unfoldable pub select_name : List String → List String → Value → List Place → Check (List String)
select_name declared selected (str s) path =
    if not (includes declared s) then complain path undeclared selected else done (add selected s)
select_name declared selected _ path = complain path not_a_string selected

abbrev pub select_all : List String → List Place → Slot → Items → Check (Option (List String))
select_all declared path s rest = do
  selected ← for_each (select_name declared) path 0 [] (items (cons s rest))
  done (some selected)

abbrev pub as_selector : Option (List String) → Option Selector
as_selector none = none
as_selector (some selected) = some (names selected)

unfoldable pub read_selector : List String → List Place → Value → Check (Option Selector)
read_selector declared path (str s) =
    if str_eq s "*" then done (some wildcard) else complain path not_an_array none
read_selector declared path (arr nil) = complain path no_selected none
read_selector declared path (arr (cons s rest)) = do
  selected ← select_all declared path s rest
  done (as_selector selected)
read_selector declared path _ = complain path not_an_array none

abbrev pub as_roles : Option (List String) → RoleList
as_roles none = unrestricted
as_roles (some selected) = listed selected

unfoldable pub read_rule_roles : List String → List Place → Value → Check RoleList
read_rule_roles declared path (arr nil) = complain path no_selected unrestricted
read_rule_roles declared path (arr (cons s rest)) = do
  selected ← select_all declared path s rest
  done (as_roles selected)
read_rule_roles declared path _ = complain path not_an_array unrestricted

unfoldable pub read_effect : List Place → Value → Check Effect
read_effect path (str s) =
    if str_eq s "allow"
    then done allow
    else if str_eq s "deny"
    then done deny
    else complain path no_effect other
read_effect path _ = complain path no_effect other

unfoldable pub read_id : List Place → Value → Check (Option String)
read_id path (str s) = if str_eq s "" then complain path empty_id none else done (some s)
read_id path _ = complain path empty_id none

unfoldable pub read_description : List Place → Value → Check (Option String)
read_description path (str s) = done (some s)
read_description path _ = complain path not_a_string none

-- A property that is checked only if the rule has it.
abbrev pub optionally {ℓ} : {A : Type ℓ} → Value → String → A → (Value → Check A) → Check A
optionally value name absent check =
    if has_own value name then (do raw ← reading (read_own value name); check raw) else done absent

abbrev pub rule_keys : List String
rule_keys = "id" ∷ "description" ∷ "effect" ∷ "actions" ∷ "subjects" ∷ "roles" ∷ "when" ∷ []

unfoldable pub check_keys : List String → List Place → List String → Check (Unit {0})
check_keys allowed path keys =
    if is_empty (others allowed keys) then done tt else complain path extra_keys tt

abbrev pub make_rule :
    Option String
    → Option String
    → Effect
    → Option Selector
    → Option Selector
    → RoleList
    → Option Value
    → Option Rule
make_rule id description effect (some actions) (some subjects) roles condition = some (record {
  id = id;
  description = description;
  effect = effect;
  actions = actions;
  subjects = subjects;
  roles = roles;
  when = condition;
})
make_rule id description effect _ _ roles condition = none

-- Nothing is returned where an issue was added.
abbrev pub settled {ℓ} : {A : Type ℓ} → Check (Option A) → Check (Option A)
settled (completed a []) = completed a []
settled (completed a (issue ∷ issues)) = completed none (issue ∷ issues)
settled threw = threw

-- The rules that passed, and their ids.
pub record Seen : Type 0 where
  pub rules : List Rule
  pub ids : List String

unfoldable pub keep_rule : Seen → Option Rule → List Place → Check Seen
keep_rule seen none path = done seen
keep_rule seen (some rule) path = elim rule.id [
  | none ↦ done (record seen { rules = seen.rules ++ rule ∷ [] })
  | some id ↦
      if includes seen.ids id
      then complain (child path "id") duplicate_id seen
      else done (record { rules = seen.rules ++ rule ∷ []; ids = seen.ids ++ id ∷ [] })
]

module _ (actions subjects roles : List String) where
  -- The properties that a rule may have.
  unfoldable pub read_details :
      Fields → List Place → Effect → Option Selector → Option Selector → Check (Option Rule)
  read_details fs path effect rule_actions rule_subjects = do
    rule_roles ←
        optionally (obj fs) "roles" unrestricted (read_rule_roles roles (child path "roles"))
    condition ← optionally (obj fs) "when" none (λ raw. check_condition raw (child path "when"))
    id ← optionally (obj fs) "id" none (read_id (child path "id"))
    description ←
        optionally (obj fs) "description" none (read_description (child path "description"))
    _ ← check_keys rule_keys path (object_keys fs)
    done (make_rule id description effect rule_actions rule_subjects rule_roles condition)

  -- Those that every rule has, first.
  unfoldable pub read_rule : Fields → List Place → Check (Option Rule)
  read_rule fs path = do
    raw_effect ← reading (read_own (obj fs) "effect")
    effect ← read_effect (child path "effect") raw_effect
    raw_actions ← reading (read_own (obj fs) "actions")
    rule_actions ← read_selector actions (child path "actions") raw_actions
    raw_subjects ← reading (read_own (obj fs) "subjects")
    rule_subjects ← read_selector subjects (child path "subjects") raw_subjects
    read_details fs path effect rule_actions rule_subjects

  unfoldable pub check_rule : Value → List Place → Check (Option Rule)
  check_rule (obj fs) path = settled (read_rule fs path)
  check_rule _ path = complain path not_an_object none

  unfoldable pub add_rule : Seen → Value → List Place → Check Seen
  add_rule seen value path = do rule ← check_rule value path; keep_rule seen rule path

  unfoldable pub read_rules : Value → Check (List Rule)
  read_rules (arr xs) = do
    seen ← for_each add_rule (key "rules" ∷ []) 0 (record { rules = []; ids = [] }) (items xs)
    done seen.rules
  read_rules _ = complain (key "rules" ∷ []) not_an_array []
