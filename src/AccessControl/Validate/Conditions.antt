-- ===== src/AccessControl/Validate/Conditions.antt =====
-- packages/access-control/src/internal/validate.ts: `checkPath` and `checkCondition`. `keys` of an object
-- are its own properties in the order of `Object.keys`; all of them are enumerable.
use first_principles.Base.{
  ℕ, zero, suc, ◌+◌, String, Bool, true, false, not, ◌||◌, Option, none, some, List, [], ◌∷◌, ◌++◌,
  map, if◌then◌else◌, str_eq, includes, filter, ltb, length,
}
use first_principles.AccessControl.Values.{
  Value, num, str, arr, obj, Slot, given, throwing, Items, nil, cons, Fields, end, field, fields,
  items, is_finite,
}
use first_principles.AccessControl.Resolve.{split}
use first_principles.AccessControl.Evaluate.{read_own, is_primitive, max_condition_depth}
use first_principles.AccessControl.Validate.Checks.{
  Place, key, index, not_an_array, not_an_object, not_a_path, unknown_root, no_attribute,
  empty_segment, forbidden_name, too_deep, several_combinators, extra_keys, no_operands,
  unexpected_operand, unknown_operator, operand_count, not_members, not_a_primitive, not_finite,
  Check, threw, done, complain, reading, ◌>>=◌,
}

abbrev pub path_roots : List String
path_roots = "principal" ∷ "resource" ∷ "env" ∷ []

abbrev pub forbidden_segments : List String
forbidden_segments = "__proto__" ∷ "constructor" ∷ "prototype" ∷ []

abbrev pub child : List Place → String → List Place
child path name = path ++ key name ∷ []

abbrev pub nth : List Place → ℕ → List Place
nth path i = path ++ index i ∷ []

-- The loop over the segments behind the root.
unfoldable pub check_segments : List Place → List String → Check (Unit {0})
check_segments path [] = done tt
check_segments path (segment ∷ rest) =
    if str_eq segment ""
    then complain path empty_segment tt
    else if includes forbidden_segments segment
    then complain path forbidden_name tt
    else check_segments path rest

unfoldable pub check_parts : List Place → String × List String → Check (Unit {0})
check_parts path (root, []) =
    if not (includes path_roots root)
    then complain path unknown_root tt
    else complain path no_attribute tt
check_parts path (root, segment ∷ rest) =
    if not (includes path_roots root)
    then complain path unknown_root tt
    else check_segments path (segment ∷ rest)

unfoldable pub check_path : Value → List Place → Check (Unit {0})
check_path (str s) path =
    if str_eq s "" then complain path not_a_path tt else check_parts path (split b'.' s)
check_path _ path = complain path not_a_path tt

abbrev pub object_keys : Fields → List String
object_keys fs = map (λ f. f.0) (fields fs)

pub data OperatorKind : Type 0 where
  presence comparison membership unrecognized : OperatorKind

abbrev pub presence_operators : List String
presence_operators = "exists" ∷ "notExists" ∷ []

abbrev pub comparison_operators : List String
comparison_operators = "eq" ∷ "ne" ∷ "gt" ∷ "gte" ∷ "lt" ∷ "lte" ∷ "contains" ∷ []

abbrev pub membership_operators : List String
membership_operators = "in" ∷ "nin" ∷ []

-- The lists of operators are searched with the value as it is, a string or not.
unfoldable pub kind_of : Value → OperatorKind
kind_of (str op) =
    if includes presence_operators op
    then presence
    else if includes comparison_operators op
    then comparison
    else if includes membership_operators op
    then membership
    else unrecognized
kind_of _ = unrecognized

-- `{ path, op }`, and with one more property behind them.
abbrev pub leaf_alone : Value → Value → Value
leaf_alone left op = obj (field "path" (given left) (field "op" (given op) end))

abbrev pub leaf_with_operand : Value → Value → String → Value → Value
leaf_with_operand left op name operand =
    obj (field "path" (given left) (field "op" (given op) (field name (given operand) end)))

-- `typeof left !== 'string'` returns nothing: the complaint is that of `checkPath`.
abbrev pub is_string : Value → Bool
is_string (str _) = true
is_string _ = false

abbrev if_string : Value → Value → Option Value
if_string left leaf = if is_string left then some leaf else none

-- `literal.every(isPrimitive)`, which stops at the first member that is none.
unfoldable pub every_primitive : List Slot → Check Bool
every_primitive [] = done true
every_primitive (throwing ∷ rest) = threw
every_primitive (given v ∷ rest) =
    let more = every_primitive rest in if is_primitive v then more else done false

abbrev members_checked : List Place → Value → Value → Items → Bool → Check (Option Value)
members_checked path left op members true =
    done (some (leaf_with_operand left op "value" (arr members)))
members_checked path left op members false = complain path not_members none

unfoldable pub check_members : List Place → Value → Value → Value → Check (Option Value)
check_members path left op (arr nil) = complain path not_members none
check_members path left op (arr (cons s rest)) = do
  all_primitive ← every_primitive (items (cons s rest))
  members_checked path left op (cons s rest) all_primitive
check_members path left op _ = complain path not_members none

abbrev pub is_finite_value : Value → Bool
is_finite_value (num n) = is_finite n
is_finite_value _ = true

unfoldable pub check_literal : List Place → Value → Value → Value → Check (Option Value)
check_literal path left op literal =
    if not (is_primitive literal)
    then complain path not_a_primitive none
    else if not (is_finite_value literal)
    then complain path not_finite none
    else done (some (leaf_with_operand left op "value" literal))

abbrev pub is_membership : OperatorKind → Bool
is_membership membership = true
is_membership _ = false

abbrev pub check_value : List Place → OperatorKind → Value → Value → Value → Check (Option Value)
check_value path kind left op literal =
    if is_membership kind
    then check_members path left op literal
    else check_literal path left op literal

-- The operand of a comparison: `ref`, or `value`.
unfoldable pub check_operand :
    List Place → OperatorKind → Value → Value → Bool → Value → Check (Option Value)
check_operand path kind left op has_ref condition =
    if not (is_string left)
    then done none
    else if has_ref
    then (do
      ref ← reading (read_own condition "ref")
      _ ← check_path ref (child path "ref")
      done (if_string ref (leaf_with_operand left op "ref" ref)))
    else (do
      literal ← reading (read_own condition "value")
      check_value (child path "value") kind left op literal)

abbrev same : Bool → Bool → Bool
same true b = b
same false b = not b

unfoldable pub check_operator :
    List Place → OperatorKind → Value → Value → List String → Value → Check (Option Value)
check_operator path presence left op keys condition =
    if includes keys "value" || includes keys "ref"
    then complain path unexpected_operand none
    else done (if_string left (leaf_alone left op))
check_operator path unrecognized left op keys condition =
    complain (child path "op") unknown_operator none
check_operator path comparison left op keys condition =
    if same (includes keys "value") (includes keys "ref")
    then complain path operand_count none
    else check_operand path comparison left op (includes keys "ref") condition
check_operator path membership left op keys condition =
    if same (includes keys "value") (includes keys "ref")
    then complain path operand_count none
    else check_operand path membership left op (includes keys "ref") condition

abbrev pub leaf_keys : List String
leaf_keys = "path" ∷ "op" ∷ "value" ∷ "ref" ∷ []

abbrev pub others : List String → List String → List String
others allowed keys = filter (λ k. not (includes allowed k)) keys

abbrev pub is_empty {ℓ} : {A : Type ℓ} → List A → Bool
is_empty [] = true
is_empty (_ ∷ _) = false

-- An attribute comparison, without another key.
unfoldable pub read_leaf : List Place → Value → List String → Check (Option Value)
read_leaf path condition keys = do
  left ← reading (read_own condition "path")
  _ ← check_path left (child path "path")
  op ← reading (read_own condition "op")
  check_operator path (kind_of op) left op keys condition

unfoldable pub check_leaf : List Place → Value → List String → Check (Option Value)
check_leaf path condition keys =
    if not (is_empty (others leaf_keys keys))
    then complain path extra_keys none
    else read_leaf path condition keys

abbrev pub wrap : String → Option Value → Option Value
wrap name none = none
wrap name (some v) = some (obj (field name (given v) end))

-- `inner.some((entry) => entry === undefined)`, and the operands if there is none.
abbrev pub collect : List (Option Value) → Option Items
collect [] = some nil
collect (none ∷ rest) = none
collect (some v ∷ rest) = elim (collect rest) [ none ↦ none | some vs ↦ some (cons (given v) vs) ]

abbrev pub as_operands : String → Option Items → Option Value
as_operands name none = none
as_operands name (some vs) = some (obj (field name (given (arr vs)) end))

-- `checkCondition` of one level more is `f`.
module _ (f : Value → List Place → Check (Option Value)) where
  unfoldable pub check_all : List Place → ℕ → List Slot → Check (List (Option Value))
  check_all path i [] = done []
  check_all path i (throwing ∷ rest) = threw
  check_all path i (given v ∷ rest) = do
    first ← f v (nth path i)
    more ← check_all path (i + 1) rest
    done (first ∷ more)

  unfoldable pub check_operands : List Place → String → Value → Check (Option Value)
  check_operands path name (arr nil) = complain (child path name) no_operands none
  check_operands path name (arr (cons s rest)) = do
    inner ← check_all (child path name) 0 (items (cons s rest))
    done (as_operands name (collect inner))
  check_operands path name _ = complain (child path name) not_an_array none

  unfoldable pub check_inner : List Place → String → Value → Check (Option Value)
  check_inner path name operand =
      if str_eq name "not"
      then (do inner ← f operand (child path "not"); done (wrap "not" inner))
      else check_operands path name operand

  unfoldable pub read_operand : List Place → String → Value → Check (Option Value)
  read_operand path name condition = do
    operand ← reading (read_own condition name)
    check_inner path name operand

  unfoldable pub check_combinator : List Place → String → Value → List String → Check (Option Value)
  check_combinator path name condition keys =
      if ltb 1 (length keys)
      then complain path extra_keys none
      else read_operand path name condition

  -- By the combinators among the keys.
  unfoldable pub check_by : List Place → List String → Value → List String → Check (Option Value)
  check_by path [] condition keys = check_leaf path condition keys
  check_by path (name ∷ []) condition keys = check_combinator path name condition keys
  check_by path (name ∷ other ∷ more) condition keys = complain path several_combinators none

  unfoldable pub check_node : Value → List Place → Check (Option Value)
  check_node (obj fs) path =
      let keys = object_keys fs in
      check_by path (filter (includes keys) ("all" ∷ "any" ∷ "not" ∷ [])) (obj fs) keys
  check_node _ path = complain path not_an_object none

-- The fuel is how many levels are left.
unfoldable pub check_levels : ℕ → Value → List Place → Check (Option Value)
check_levels zero v path = complain path too_deep none
check_levels (suc left) v path = check_node (check_levels left) v path

unfoldable pub check_condition : Value → List Place → Check (Option Value)
check_condition v path = check_levels max_condition_depth v path
