-- ===== src/AccessControl/Validate/Complete.antt =====
-- What is a condition passes its check as it is.
use first_principles.Base.{
  ◌≡◌, refl, ap, ◌∙◌, ℕ, suc, ◌+◌, String, Option, some, List, [], ◌∷◌, str_eq, arith,
}
use first_principles.AccessControl.Values.{
  Value, str, arr, obj, Slot, given, Items, nil, cons, field, end, items, own,
}
use first_principles.AccessControl.Evaluate.{read_own}
use first_principles.AccessControl.Validate.Checks.{Place, Check, done, adding-nil, bind-of-done}
use first_principles.AccessControl.Validate.Conditions.{
  child, nth, kind_of, leaf_alone, leaf_with_operand, check_operator, read_operand, check_all,
  check_operands, check_inner, check_combinator, check_by, check_node, check_levels, collect,
  as_operands,
}
use first_principles.AccessControl.Validate.Declared.{
  IsCondition, AreConditions, against_attribute, against_literal, against_members, negation,
  conjunction, disjunction, no_more, one_more,
}
use first_principles.AccessControl.Validate.Readable.{
  check_path-attribute, kind_of-presence, kind_of-comparison, kind_of-membership, kind_of-binary,
  check_levels-alone, check_levels-value, check_levels-ref, presence-passes, ref-passes,
  literal-passes, members-pass,
}

-- An object with one combinator.
module _ (n : ℕ) (path : List Place) where
  check_levels-not :
      (c : Value)
      → check_levels n c (child path "not") ≡ done (some c)
      → check_levels (suc n) (obj (field "not" (given c) end)) path
        ≡ done (some (obj (field "not" (given c) end)))
  unfolding check_levels check_node check_by check_combinator read_operand check_inner read_own own
      str_eq
  check_levels-not c passes =
      adding-nil _ ∙ bind-of-done (check_levels n c (child path "not")) (some c) _ passes

  operands-pass :
      (name : String) (s : Slot) (rest : Items) (checked : List (Option Value))
      → check_all (check_levels n) (child path name) 0 (items (cons s rest)) ≡ done checked
      → collect checked ≡ some (cons s rest)
      → check_operands (check_levels n) path name (arr (cons s rest))
        ≡ done (some (obj (field name (given (arr (cons s rest))) end)))
  unfolding check_operands
  operands-pass name s rest checked passes collected =
      bind-of-done (check_all (check_levels n) (child path name) 0 (items (cons s rest))) checked _
        passes
      ∙ ap (λ o. done (as_operands name o)) collected

  check_levels-all :
      (cs : Items)
      → check_levels (suc n) (obj (field "all" (given (arr cs)) end)) path
        ≡ check_operands (check_levels n) path "all" (arr cs)
  unfolding check_levels check_node check_by check_combinator read_operand check_inner read_own own
      str_eq
  check_levels-all cs = adding-nil _

  check_levels-any :
      (cs : Items)
      → check_levels (suc n) (obj (field "any" (given (arr cs)) end)) path
        ≡ check_operands (check_levels n) path "any" (arr cs)
  unfolding check_levels check_node check_by check_combinator read_operand check_inner read_own own
      str_eq
  check_levels-any cs = adding-nil _

  check_all-nil :
      (f : Value → List Place → Check (Option Value)) (i : ℕ) → check_all f path i [] ≡ done []
  unfolding check_all
  check_all-nil f i = refl

  check_all-cons :
      (f : Value → List Place → Check (Option Value)) (i : ℕ) (v : Value) (slots : List Slot)
      (checked : List (Option Value))
      → f v (nth path i) ≡ done (some v)
      → check_all f path (i + 1) slots ≡ done checked
      → check_all f path i (given v ∷ slots) ≡ done (some v ∷ checked)
  unfolding check_all
  check_all-cons f i v slots checked first rest =
      bind-of-done (f v (nth path i)) (some v) _ first
      ∙ bind-of-done (check_all f path (i + 1) slots) checked _ rest

-- The operands pass, each as it is.
abbrev Passing : ℕ → List Place → ℕ → Items → Type 0
Passing n path i cs =
    (checked : List (Option Value)) × (check_all (check_levels n) path i (items cs) ≡ done checked)
    × (collect checked ≡ some cs)

mutual
  pub IsCondition-passes :
      {n : ℕ} {c : Value} (path : List Place)
      → IsCondition n c
      → check_levels n c path ≡ done (some c)
  IsCondition-passes path (IsCondition.presence {n = n} {p = p} {op = op} attribute known) =
      check_levels-alone n (str p) (str op) path
        (check_path-attribute p (child path "path") attribute)
      ∙ (ap
            (λ kind.
              check_operator path kind (str p) (str op) ("path" ∷ "op" ∷ [])
                (leaf_alone (str p) (str op)))
            (kind_of-presence op known)
          ∙ presence-passes p (str op) path)
  IsCondition-passes path
        (against_attribute {n = n} {p = p} {op = op} {ref = ref} attribute known other) =
      check_levels-ref n (str p) (str op) path
        (check_path-attribute p (child path "path") attribute) (str ref)
      ∙ ref-passes p (str op) path (kind_of (str op)) ref (kind_of-binary op known)
          (check_path-attribute ref (child path "ref") other)
  IsCondition-passes path
        (against_literal {n = n} {p = p} {op = op} {literal = v} attribute known primitive finite) =
      check_levels-value n (str p) (str op) path
        (check_path-attribute p (child path "path") attribute) v
      ∙ (ap
            (λ kind.
              check_operator path kind (str p) (str op) ("path" ∷ "op" ∷ "value" ∷ [])
                (leaf_with_operand (str p) (str op) "value" v))
            (kind_of-comparison op known)
          ∙ literal-passes p (str op) path v primitive finite)
  IsCondition-passes path
        (against_members {n = n} {p = p} {op = op} {s = s} {rest = rest} attribute known members) =
      check_levels-value n (str p) (str op) path
        (check_path-attribute p (child path "path") attribute) (arr (cons s rest))
      ∙ (ap
            (λ kind.
              check_operator path kind (str p) (str op) ("path" ∷ "op" ∷ "value" ∷ [])
                (leaf_with_operand (str p) (str op) "value" (arr (cons s rest))))
            (kind_of-membership op known)
          ∙ members-pass p (str op) path s rest members)
  IsCondition-passes path (negation {n = n} {c = c} inner) =
      check_levels-not n path c (IsCondition-passes (child path "not") inner)
  IsCondition-passes path (conjunction {n = n} {cs = nil} operands some_operand) =
      absurd (ground (arith, some_operand))
  IsCondition-passes path (conjunction {n = n} {cs = cons s rest} operands some_operand) =
      let (checked, passes, collected) = AreConditions-pass (child path "all") 0 operands in
      check_levels-all n path (cons s rest)
      ∙ operands-pass n path "all" s rest checked passes collected
  IsCondition-passes path (disjunction {n = n} {cs = nil} operands some_operand) =
      absurd (ground (arith, some_operand))
  IsCondition-passes path (disjunction {n = n} {cs = cons s rest} operands some_operand) =
      let (checked, passes, collected) = AreConditions-pass (child path "any") 0 operands in
      check_levels-any n path (cons s rest)
      ∙ operands-pass n path "any" s rest checked passes collected

  AreConditions-pass :
      {n : ℕ} {cs : Items} (path : List Place) (i : ℕ) → AreConditions n cs → Passing n path i cs
  AreConditions-pass path i (no_more {n = n}) = ([], check_all-nil n path (check_levels n) i, refl)
  AreConditions-pass path i (one_more {n = n} {c = c} {cs = cs} first more) =
      let (checked, passes, collected) = AreConditions-pass path (i + 1) more in
      (
        some c ∷ checked,
        check_all-cons n path (check_levels n) i c (items cs) checked
            (IsCondition-passes (nth path i) first) passes,
        ground (arith, collected),
      )
