-- ===== src/AccessControl/Validate/Tests.antt =====
-- A small policy as a value, what the validation makes of it, and the theorems at these inputs.
use first_principles.Base.Maps.{map_set}
use first_principles.Base.{◌≡◌, refl, ◌↔◌, true, none, some, List, [], ◌∷◌, str_eq}
use first_principles.AccessControl.Values.{
  Value, str, arr, obj, given, Items, nil, cons, items, end, field, Fields, own, normal,
}
use first_principles.AccessControl.Resolve.{split}
use first_principles.AccessControl.Evaluate.{read_own, has_own, max_condition_depth}
use first_principles.AccessControl.Roles.{add}
use first_principles.AccessControl.Policy.{allow, wildcard, names, listed, Rule, Policy}
use first_principles.AccessControl.Validate.Checks.{key, index, PolicyIssue, undeclared, done}
use first_principles.AccessControl.Validate.Conditions.{
  check_segments, check_parts, check_path, kind_of, every_primitive, check_members, check_literal,
  check_operand, check_operator, check_leaf, read_leaf, check_all, check_operands, check_inner,
  read_operand, check_combinator, check_by, check_node, check_levels, check_condition,
}
use first_principles.AccessControl.Validate.Rules.{
  for_each, declare_name, read_name_list, select_name, read_selector, read_rule_roles, read_effect,
  read_id, read_description, check_keys, keep_rule, read_details, read_rule, check_rule, add_rule,
  read_rules,
}
use first_principles.AccessControl.Validate.Declared.{IsCondition, AreRead, IsPolicy}
use first_principles.AccessControl.Validate.Outcome.{
  parse_policy-IsPolicy, parse_policy-AreRead, check_condition-IsCondition, check_condition-again,
}
use first_principles.AccessControl.Validate.{
  declare_role, declare_key, declare_keys, read_parents, read_graph, read_roles, read_policy,
  validate_policy, parsed, invalid, parse_policy, define_policy,
}

program : Unit {0}
unfolding map_set split own read_own has_own str_eq add check_segments check_parts check_path
    kind_of every_primitive check_members check_literal check_operand check_operator check_leaf
    read_leaf check_all check_operands check_inner read_operand check_combinator check_by check_node
    check_levels check_condition for_each declare_name read_name_list select_name read_selector
    read_rule_roles read_effect read_id read_description check_keys keep_rule read_details read_rule
    check_rule add_rule read_rules declare_role declare_key declare_keys read_parents read_graph
    read_roles read_policy validate_policy parse_policy define_policy
program = tt

abbrev one : Value → Value
one v = arr (cons (given v) nil)

abbrev owner_only : Value
owner_only = obj (
    field "path" (given (str "resource.ownerId"))
      (field "op" (given (str "eq")) (field "ref" (given (str "principal.id")) end)))

abbrev rule_fields : Value → Fields
rule_fields action = field "id" (given (str "own")) (
    field "effect" (given (str "allow")) (
      field "actions" (given (one action)) (
        field "subjects" (given (str "*"))
          (field "roles" (given (one (str "author"))) (field "when" (given owner_only) end)))))

abbrev roles_given : Value
roles_given =
    obj (field "admin" (given (one (str "author"))) (field "author" (given (arr nil)) end))

abbrev entries : Value → Items
entries action = cons (given (obj (rule_fields action))) nil

abbrev definition : Value → Fields
definition action =
    field "actions" (given (arr (cons (given (str "edit")) (cons (given (str "edit")) nil)))) (
      field "subjects" (given (one (str "post")))
        (field "roles" (given roles_given) (field "rules" (given (arr (entries action))) end)))

abbrev own_rule : Rule
own_rule = record {
  id = some "own";
  description = none;
  effect = allow;
  actions = names ("edit" ∷ []);
  subjects = wildcard;
  roles = listed ("author" ∷ []);
  when = some owner_only;
}

abbrev own_policy : Policy
own_policy = record {
  branded = true;
  actions = "edit" ∷ [];
  subjects = "post" ∷ [];
  roles = ("admin", "author" ∷ []) ∷ ("author", []) ∷ [];
  rules = own_rule ∷ [];
}

own_parsed : parse_policy (obj (definition (str "edit"))) ≡ normal (parsed own_policy)
unfolding program
own_parsed = refl

-- An action that is not declared.
abbrev unknown_action : List PolicyIssue
unknown_action =
    record { path = key "rules" ∷ index 0 ∷ key "actions" ∷ index 0 ∷ []; complaint = undeclared }
    ∷ []

delete_refused : parse_policy (obj (definition (str "delete"))) ≡ normal (invalid unknown_action)
unfolding program
delete_refused = refl

owner_checked : check_condition owner_only (key "when" ∷ []) ≡ done (some owner_only)
unfolding program
owner_checked = refl

parse_policy-IsPolicy_example : (own_policy.branded ≡ true) × IsPolicy own_policy
parse_policy-IsPolicy_example =
    parse_policy-IsPolicy (obj (definition (str "edit"))) own_policy own_parsed

parse_policy-AreRead_example : AreRead (items (entries (str "edit"))) own_policy.rules
unfolding program
parse_policy-AreRead_example =
    parse_policy-AreRead (definition (str "edit")) (entries (str "edit")) own_policy refl own_parsed

check_condition-IsCondition_example :
    (check_condition owner_only (key "when" ∷ []) ≡ done (some owner_only))
    ↔ IsCondition max_condition_depth owner_only
check_condition-IsCondition_example = check_condition-IsCondition owner_only (key "when" ∷ [])

check_condition-again_example : check_condition owner_only (key "not" ∷ []) ≡ done (some owner_only)
check_condition-again_example =
    check_condition-again owner_only owner_only (key "when" ∷ []) (key "not" ∷ []) owner_checked
