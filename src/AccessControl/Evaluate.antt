-- ===== src/AccessControl/Evaluate.antt =====
-- packages/access-control/src/internal/evaluate.ts: the value of a condition in an environment.
-- A condition is read the way the code reads it, as an arbitrary object. `fuel` is how many levels
-- are left: the code's `depth` is `max_condition_depth - fuel + 1`.
pub mod Monotone
use first_principles.Base.{
  ℕ, zero, suc, String, Bool, true, false, not, ◌&&◌, ◌||◌, Option, none, some, List, [], ◌∷◌,
  if◌then◌else◌, str_eq,
}
use first_principles.AccessControl.Truth.{
  Ternary, unknown, from_boolean, all as kleene_all, any as kleene_any, negate,
}
use first_principles.AccessControl.Values.{
  Value, undefined, bool, num, str, arr, obj, Slot, given, throwing, Items, nil, cons, Completion,
  normal, throw, ◌>>=◌, get_slot, items, is_object, own,
}
use first_principles.AccessControl.Values.Order.{number_eq, number_lt, number_le, string_lt}
use first_principles.AccessControl.Resolve.{
  Resolved, value, absent, unresolved, AttributeEnvironment, resolve_path,
}

abbrev pub max_condition_depth : ℕ
max_condition_depth = 32

abbrev pub is_some {ℓ} : {A : Type ℓ} → Option A → Bool
is_some none = false
is_some (some _) = true

unfoldable pub has_own : Value → String → Bool
has_own v key = is_some (own v key)

-- Evaluation's `readOwn` and the engine's: `undefined` if there is no such own property.
abbrev read_found : Option Slot → Completion Value
read_found none = normal undefined
read_found (some s) = get_slot s

unfoldable pub read_own : Value → String → Completion Value
read_own v key = read_found (own v key)

abbrev pub is_primitive : Value → Bool
is_primitive (str _) = true
is_primitive (num _) = true
is_primitive (bool _) = true
is_primitive _ = false

abbrev bool_eq : Bool → Bool → Bool
bool_eq true b = b
bool_eq false b = not b

-- `===` of any value and a primitive.
unfoldable pub strict_eq : Value → Value → Bool
unfolding number_eq
strict_eq (str a) (str b) = str_eq a b
strict_eq (num a) (num b) = number_eq a b
strict_eq (bool a) (bool b) = bool_eq a b
strict_eq _ _ = false

-- `members.some((member) => member === target)`: it stops at the first match.
unfoldable pub some_equal : List Slot → Value → Completion Bool
some_equal [] target = normal false
some_equal (throwing ∷ members) target = throw
some_equal (given member ∷ members) target =
    let rest = some_equal members target in if strict_eq member target then normal true else rest

pub data OrderOperator : Type 0 where
  gt gte lt lte : OrderOperator

order_tests : OrderOperator → (a b : Bool) → (c d : Bool) → Bool
order_tests gt less more le ge = more
order_tests gte less more le ge = ge
order_tests lt less more le ge = less
order_tests lte less more le ge = le

unfoldable pub order : OrderOperator → Value → Value → Ternary
unfolding order_tests
order op (num a) (num b) =
    from_boolean (order_tests op (number_lt a b) (number_lt b a) (number_le a b) (number_le b a))
order op (str a) (str b) =
    from_boolean
      (order_tests op (string_lt a b) (string_lt b a) (not (string_lt b a)) (not (string_lt a b)))
order op _ _ = unknown

membership : Bool → Value → Value → Completion Ternary
membership negated left (arr xs) =
    if is_primitive left
    then (do
      found ← some_equal (items xs) left
      normal (from_boolean (if negated then not found else found)))
    else normal unknown
membership negated left _ = normal unknown

contains : Value → Value → Completion Ternary
contains (arr xs) right =
    if is_primitive right
    then (do found ← some_equal (items xs) right; normal (from_boolean found))
    else normal unknown
contains _ right = normal unknown

compare_primitives : String → Value → Value → Ternary
compare_primitives op left right =
    if str_eq op "eq"
    then from_boolean (strict_eq left right)
    else if str_eq op "ne"
    then from_boolean (not (strict_eq left right))
    else if str_eq op "gt"
    then order gt left right
    else if str_eq op "gte"
    then order gte left right
    else if str_eq op "lt"
    then order lt left right
    else if str_eq op "lte"
    then order lte left right
    else unknown

unfoldable pub apply_values : String → Value → Value → Completion Ternary
unfolding membership contains compare_primitives
apply_values op left right =
    if str_eq op "in" || str_eq op "nin"
    then membership (not (str_eq op "in")) left right
    else if str_eq op "contains"
    then contains left right
    else if not (is_primitive left) || not (is_primitive right)
    then normal unknown
    else normal (compare_primitives op left right)

unfoldable pub apply_binary : String → Resolved → Resolved → Completion Ternary
apply_binary op (value left) (value right) = apply_values op left right
apply_binary op _ _ = normal unknown

-- `exists` and `notExists`.
abbrev presence : Bool → Resolved → Ternary
presence wanted unresolved = unknown
presence wanted absent = from_boolean (not wanted)
presence wanted (value _) = from_boolean wanted

unfoldable pub apply_ref : AttributeEnvironment → String → Resolved → Value → Completion Ternary
apply_ref environment op left (str ref) = apply_binary op left (resolve_path environment ref)
apply_ref environment op left _ = normal unknown

unfoldable pub leaf_with : AttributeEnvironment → Value → Value → Value → Completion Ternary
leaf_with environment condition (str path) (str op) =
    let left = resolve_path environment path in
    if str_eq op "exists" || str_eq op "notExists"
    then normal (presence (str_eq op "exists") left)
    else if has_own condition "ref"
    then (do ref ← read_own condition "ref"; apply_ref environment op left ref)
    else if has_own condition "value"
    then (do literal ← read_own condition "value"; apply_binary op left (value literal))
    else normal unknown
leaf_with environment condition _ _ = normal unknown

-- An attribute comparison.
unfoldable pub leaf : AttributeEnvironment → Value → Completion Ternary
leaf environment condition = do
  path ← read_own condition "path"
  op ← read_own condition "op"
  leaf_with environment condition path op

-- `operands.map(...)`
unfoldable pub map_slots : (Value → Completion Ternary) → List Slot → Completion (List Ternary)
map_slots f [] = normal []
map_slots f (s ∷ rest) = do
  operand ← get_slot s
  verdict ← f operand
  verdicts ← map_slots f rest
  normal (verdict ∷ verdicts)

unfoldable pub combine : (Value → Completion Ternary) → Bool → Value → Completion Ternary
combine f conjunction (arr (cons s rest)) = do
  verdicts ← map_slots f (items (cons s rest))
  normal (if conjunction then kleene_all verdicts else kleene_any verdicts)
combine f conjunction _ = normal unknown

-- One level of a condition; `f` evaluates the next.
unfoldable pub evaluate_node :
    (Value → Completion Ternary) → AttributeEnvironment → Value → Completion Ternary
evaluate_node f environment condition =
    if not (is_object condition)
    then normal unknown
    else if has_own condition "all" || has_own condition "any"
    then (do
      operands ← read_own condition (if has_own condition "all" then "all" else "any")
      combine f (has_own condition "all") operands)
    else if has_own condition "not"
    then (do inner ← read_own condition "not"; verdict ← f inner; normal (negate verdict))
    else leaf environment condition

unfoldable pub evaluate : ℕ → AttributeEnvironment → Value → Completion Ternary
evaluate zero environment condition = normal unknown
evaluate (suc fuel) environment condition =
    evaluate_node (evaluate fuel environment) environment condition

unfoldable pub evaluate_condition : Value → AttributeEnvironment → Completion Ternary
evaluate_condition condition environment = evaluate max_condition_depth environment condition
