-- ===== src/AccessControl/Validate/Loud.antt =====
-- No condition is lost without a complaint: a check of a condition that adds no issue returns one.
use first_principles.Base.{
  ◌≡◌, sym, ap, ◌∙◌, ◌≢◌, inl, inr, ℕ, zero, suc, ◌+◌, String, Bool, true, false, not, Option, none,
  List, [], ◌∷◌, str_eq, includes, ltb, length, Bool-cases, Option-cases, arith,
}
use first_principles.AccessControl.Values.{
  Value, undefined, num, str, bool, arr, obj, Slot, given, throwing, nil, cons, items,
}
use first_principles.AccessControl.Evaluate.{read_own}
use first_principles.AccessControl.Validate.Checks.{
  Place, Check, done, reading, bind-done, unless-done,
}
use first_principles.AccessControl.Validate.Conditions.{
  child, nth, check_path, OperatorKind, presence, comparison, membership, unrecognized, kind_of,
  every_primitive, check_members, check_literal, check_operand, check_operator, check_leaf,
  read_leaf, read_operand, wrap, collect, check_all, check_operands, check_inner, check_combinator,
  check_by, check_node, check_levels, others, leaf_keys, is_empty, object_keys,
}
use first_principles.AccessControl.Validate.Leaves.{check_path-done}

-- The check does not return nothing without an issue.
abbrev IsLoud : Check (Option Value) → Type 0
IsLoud c = c ≢ done none

check_members-IsLoud :
    (path : List Place) (left op literal : Value) → IsLoud (check_members path left op literal)
unfolding check_members
check_members-IsLoud path left op (arr (cons s rest)) h =
    let (b, e, last) = bind-done (every_primitive (items (cons s rest))) _ none h in
    elim (Bool-cases b) [
      | inl all_are ↦ absurd (ground (arith, all_are))
      | inr not_all ↦ absurd (ground (arith, not_all))
    ]
check_members-IsLoud path left op (arr nil) h = absurd (ground arith)
check_members-IsLoud path left op undefined h = absurd (ground arith)
check_members-IsLoud path left op Value.null h = absurd (ground arith)
check_members-IsLoud path left op Value.callable h = absurd (ground arith)
check_members-IsLoud path left op (bool b) h = absurd (ground arith)
check_members-IsLoud path left op (num m) h = absurd (ground arith)
check_members-IsLoud path left op (str t) h = absurd (ground arith)
check_members-IsLoud path left op (obj fs) h = absurd (ground arith)

check_literal-IsLoud :
    (path : List Place) (left op literal : Value) → IsLoud (check_literal path left op literal)
unfolding check_literal
check_literal-IsLoud path left op literal h = absurd (ground arith)

check_operand-IsLoud :
    (path : List Place) (kind : OperatorKind) (p : String) (op : Value) (has_ref : Bool)
    (condition : Value)
    → IsLoud (check_operand path kind (str p) op has_ref condition)
unfolding check_operand
check_operand-IsLoud path kind p op true condition h =
    let (ref, e, more) = bind-done (reading (read_own condition "ref")) _ none h in
    let (_, checked, last) = bind-done (check_path ref (child path "ref")) _ none more in
    let (s, same, _) = check_path-done ref (child path "ref") checked in
    absurd (ground (arith, same, last))
check_operand-IsLoud path kind p op false condition h =
    let (literal, e, more) = bind-done (reading (read_own condition "value")) _ none h in
    ground (
      arith,
      more,
      check_members-IsLoud (child path "value") (str p) op literal,
      check_literal-IsLoud (child path "value") (str p) op literal,
    )

check_operator-IsLoud :
    (path : List Place) (kind : OperatorKind) (p : String) (op : Value) (keys : List String)
    (condition : Value)
    → IsLoud (check_operator path kind (str p) op keys condition)
unfolding check_operator
check_operator-IsLoud path presence p op keys condition h = absurd (ground arith)
check_operator-IsLoud path unrecognized p op keys condition h = absurd (ground arith)
check_operator-IsLoud path comparison p op keys condition h =
    ground (arith, check_operand-IsLoud path comparison p op (includes keys "ref") condition)
check_operator-IsLoud path membership p op keys condition h =
    ground (arith, check_operand-IsLoud path membership p op (includes keys "ref") condition)

check_leaf-IsLoud :
    (path : List Place) (condition : Value) (keys : List String)
    → IsLoud (check_leaf path condition keys)
unfolding check_leaf read_leaf
check_leaf-IsLoud path condition keys h =
    let (_, reads) = unless-done (not (is_empty (others leaf_keys keys))) path _ none none _ h in
    let (left, _, after_left) = bind-done (reading (read_own condition "path")) _ none reads in
    let (_, checked, after_path) =
      bind-done (check_path left (child path "path")) _ none after_left in
    let (op, _, last) = bind-done (reading (read_own condition "op")) _ none after_path in
    let (p, same, _) = check_path-done left (child path "path") checked in
    check_operator-IsLoud path (kind_of op) p op keys condition
      (ap (λ l. check_operator path (kind_of op) l op keys condition) (sym same) ∙ last)

module _ (f : Value → List Place → Check (Option Value))
    (loud : (v : Value) (path : List Place) → IsLoud (f v path)) where
  collect-check_all :
      (path : List Place) (i : ℕ) (slots : List Slot) (checked : List (Option Value))
      → check_all f path i slots ≡ done checked
      → collect checked ≢ none
  unfolding check_all
  collect-check_all path i [] checked h k = absurd (ground arith)
  collect-check_all path i (throwing ∷ rest) checked h k = absurd (ground arith)
  collect-check_all path i (given v ∷ rest) checked h k =
      let (first, e, after) = bind-done (f v (nth path i)) _ checked h in
      let (more, e', last) = bind-done (check_all f path (i + 1) rest) _ checked after in
      let others = collect-check_all path (i + 1) rest more e' in
      elim (Option-cases first) [
        | inl gone ↦ loud v (nth path i) (e ∙ ap done gone)
        | inr (c, is) ↦ ground (arith, last, k, is, others)
      ]

  check_operands-IsLoud :
      (path : List Place) (name : String) (operand : Value)
      → IsLoud (check_operands f path name operand)
  unfolding check_operands
  check_operands-IsLoud path name (arr (cons s rest)) h =
      let (inner, e, last) =
        bind-done (check_all f (child path name) 0 (items (cons s rest))) _ none h in
      elim (Option-cases (collect inner)) [
        | inl gone ↦ collect-check_all (child path name) 0 (items (cons s rest)) inner e gone
        | inr (cs, together) ↦ absurd (ground (arith, together))
      ]
  check_operands-IsLoud path name (arr nil) h = absurd (ground arith)
  check_operands-IsLoud path name undefined h = absurd (ground arith)
  check_operands-IsLoud path name Value.null h = absurd (ground arith)
  check_operands-IsLoud path name Value.callable h = absurd (ground arith)
  check_operands-IsLoud path name (bool b) h = absurd (ground arith)
  check_operands-IsLoud path name (num m) h = absurd (ground arith)
  check_operands-IsLoud path name (str t) h = absurd (ground arith)
  check_operands-IsLoud path name (obj fs) h = absurd (ground arith)

  check_inner-IsLoud :
      (path : List Place) (name : String) (operand : Value)
      → IsLoud (check_inner f path name operand)
  unfolding check_inner
  check_inner-IsLoud path name operand h = elim (Bool-cases (str_eq name "not")) [
    | inl is_not ↦
        let (inner, e, last) =
          bind-done (f operand (child path "not")) (λ inner. done (wrap "not" inner)) none
            (ground (arith, is_not)) in
        elim (Option-cases inner) [
          | inl gone ↦ loud operand (child path "not") (e ∙ ap done gone)
          | inr (v, is) ↦ absurd (ground (arith, is))
        ]
    | inr other ↦ check_operands-IsLoud path name operand (ground (arith, other))
  ]

  check_by-IsLoud :
      (path : List Place) (combinators keys : List String) (condition : Value)
      → IsLoud (check_by f path combinators condition keys)
  unfolding check_by check_combinator read_operand
  check_by-IsLoud path [] keys condition h = check_leaf-IsLoud path condition keys h
  check_by-IsLoud path (name ∷ []) keys condition h =
      let (_, reads) = unless-done (ltb 1 (length keys)) path _ none none _ h in
      let (operand, _, last) = bind-done (reading (read_own condition name)) _ none reads in
      check_inner-IsLoud path name operand last
  check_by-IsLoud path (name ∷ other ∷ more) keys condition h = absurd (ground arith)

  check_node-IsLoud : (v : Value) (path : List Place) → IsLoud (check_node f v path)
  unfolding check_node
  check_node-IsLoud (obj fs) path h = check_by-IsLoud path _ (object_keys fs) (obj fs) h
  check_node-IsLoud undefined path h = absurd (ground arith)
  check_node-IsLoud Value.null path h = absurd (ground arith)
  check_node-IsLoud Value.callable path h = absurd (ground arith)
  check_node-IsLoud (bool b) path h = absurd (ground arith)
  check_node-IsLoud (num m) path h = absurd (ground arith)
  check_node-IsLoud (str t) path h = absurd (ground arith)
  check_node-IsLoud (arr xs) path h = absurd (ground arith)

pub check_levels-IsLoud : (n : ℕ) (v : Value) (path : List Place) → IsLoud (check_levels n v path)
unfolding check_levels
check_levels-IsLoud zero v path h = absurd (ground arith)
check_levels-IsLoud (suc n) v path h =
    check_node-IsLoud (check_levels n) (check_levels-IsLoud n) v path h
