-- ===== src/AccessControl/Validate/Sound.antt =====
-- A condition that passes its check is one.
use first_principles.Base.{
  ◌≡◌, refl, ap, ◌∙◌, ◌⊎◌, inl, inr, ℕ, zero, suc, ◌+◌, String, true, false, Option, none, some,
  List, [], ◌∷◌, str_eq, str_eq_iff, includes, filter, ltb, length, Option-cases, arith,
}
use first_principles.AccessControl.Values.{
  Value, undefined, num, str, bool, arr, obj, Slot, given, throwing, Items, nil, cons, field, end,
  items,
}
use first_principles.AccessControl.Evaluate.{read_own}
use first_principles.AccessControl.Validate.Checks.{
  Place, Check, done, reading, bind-done, unless-done,
}
use first_principles.AccessControl.Validate.Conditions.{
  child, nth, read_operand, wrap, collect, check_all, check_operands, check_inner, check_combinator,
  check_by, check_node, check_levels, object_keys,
}
use first_principles.AccessControl.Validate.Declared.{
  IsCondition, AreConditions, negation, conjunction, disjunction, no_more, one_more, has_items,
}
use first_principles.AccessControl.Validate.Leaves.{some-done, check_leaf-done}

collect-cons :
    (first : Option Value) (more : List (Option Value)) (cs : Items)
    → collect (first ∷ more) ≡ some cs
    → (v : Value) × (vs : Items) × (first ≡ some v)
      × (collect more ≡ some vs)
      × (cs ≡ cons (given v) vs)
collect-cons none more cs h = absurd (ground arith)
collect-cons (some v) more cs h = elim (Option-cases (collect more)) [
  | inl gone ↦ absurd (ground arith)
  | inr (vs, e) ↦ (v, vs, refl, e, ground arith)
]

not_other : (name : String) → (name ≡ "all") ⊎ (name ≡ "any") → str_eq name "not" ≡ false
unfolding str_eq
not_other name (inl same) = rw same refl
not_other name (inr same) = rw same refl

combined :
    {n : ℕ} (name : String) (cs : Items)
    → (name ≡ "all") ⊎ (name ≡ "any")
    → AreConditions n cs
    → has_items cs ≡ true
    → IsCondition (suc n) (obj (field name (given (arr cs)) end))
combined name cs (inl same) h k = rw same (conjunction h k)
combined name cs (inr same) h k = rw same (disjunction h k)

-- One level, over a check of the next that is sound.
module _ (n : ℕ) (f : Value → List Place → Check (Option Value))
    (sound : (v : Value) (path : List Place) (c : Value)
      → f v path ≡ done (some c)
      → IsCondition n c) where
  check_all-done :
      (path : List Place) (i : ℕ) (slots : List Slot) (checked : List (Option Value)) (cs : Items)
      → check_all f path i slots ≡ done checked
      → collect checked ≡ some cs
      → AreConditions n cs
  unfolding check_all
  check_all-done path i [] checked cs h k = let empty : cs ≡ nil = ground arith in rw empty no_more
  check_all-done path i (throwing ∷ rest) checked cs h k = absurd (ground arith)
  check_all-done path i (given v ∷ rest) checked cs h k =
      let (first, e, after) = bind-done (f v (nth path i)) _ checked h in
      let (more, e', last) = bind-done (check_all f path (i + 1) rest) _ checked after in
      let (c, vs, is, e'', together) = collect-cons first more cs (ground (arith, last, k)) in
      rw together (
        one_more (sound v (nth path i) c (e ∙ ap done is))
          (check_all-done path (i + 1) rest more vs e' e''))

  check_all-cons :
      (path : List Place) (i : ℕ) (s : Slot) (rest : List Slot) (checked : List (Option Value))
      (cs : Items)
      → check_all f path i (s ∷ rest) ≡ done checked
      → collect checked ≡ some cs
      → has_items cs ≡ true
  unfolding check_all
  check_all-cons path i throwing rest checked cs h k = absurd (ground arith)
  check_all-cons path i (given v) rest checked cs h k =
      let (first, e, after) = bind-done (f v (nth path i)) _ checked h in
      let (more, e', last) = bind-done (check_all f path (i + 1) rest) _ checked after in
      let (c, vs, is, e'', together) = collect-cons first more cs (ground (arith, last, k)) in
      ap has_items together

  -- The operands of `all` and `any`.
  check_operands-done :
      (path : List Place) (name : String) (operand c : Value)
      → (name ≡ "all") ⊎ (name ≡ "any")
      → check_operands f path name operand ≡ done (some c)
      → IsCondition (suc n) c
  unfolding check_operands
  check_operands-done path name (arr (cons s rest)) c which h =
      let (inner, e, last) =
        bind-done (check_all f (child path name) 0 (items (cons s rest))) _ (some c) h in
      elim (Option-cases (collect inner)) [
        | inl gone ↦ absurd (ground (arith, gone))
        | inr (cs, together) ↦
            let same =
              some-done (obj (field name (given (arr cs)) end)) c (ground (arith, together)) in
            let all_are =
              check_all-done (child path name) 0 (items (cons s rest)) inner cs e together in
            rw (← same) (
              combined name cs which all_are
                (check_all-cons (child path name) 0 s (items rest) inner cs e together))
      ]
  check_operands-done path name (arr nil) c which h = absurd (ground arith)
  check_operands-done path name undefined c which h = absurd (ground arith)
  check_operands-done path name Value.null c which h = absurd (ground arith)
  check_operands-done path name Value.callable c which h = absurd (ground arith)
  check_operands-done path name (bool b) c which h = absurd (ground arith)
  check_operands-done path name (num m) c which h = absurd (ground arith)
  check_operands-done path name (str t) c which h = absurd (ground arith)
  check_operands-done path name (obj fs) c which h = absurd (ground arith)

  check_inner-done :
      (path : List Place) (name : String) (operand c : Value)
      → (name ≡ "not") ⊎ ((name ≡ "all") ⊎ (name ≡ "any"))
      → check_inner f path name operand ≡ done (some c)
      → IsCondition (suc n) c
  unfolding check_inner
  check_inner-done path name operand c (inl same) h =
      let (inner, e, last) =
        bind-done (f operand (child path "not")) (λ inner. done (wrap "not" inner)) (some c)
          (ground (arith, str_eq_iff name "not")) in
      elim (Option-cases inner) [
        | inl gone ↦ absurd (ground (arith, gone))
        | inr (v, is) ↦
            rw (← some-done (obj (field "not" (given v) end)) c (ground (arith, is)))
              (negation (sound operand (child path "not") v (e ∙ ap done is)))
      ]
  check_inner-done path name operand c (inr which) h =
      check_operands-done path name operand c which (ground (arith, not_other name which))

  check_by-done :
      (path : List Place) (combinators keys : List String) (condition c : Value)
      → filter (includes keys) ("all" ∷ "any" ∷ "not" ∷ []) ≡ combinators
      → check_by f path combinators condition keys ≡ done (some c)
      → IsCondition (suc n) c
  unfolding check_by check_combinator read_operand
  check_by-done path [] keys condition c which h = check_leaf-done n path condition c keys h
  check_by-done path (name ∷ []) keys condition c which h =
      let (_, reads) = unless-done (ltb 1 (length keys)) path _ none (some c) _ h in
      let (operand, _, last) = bind-done (reading (read_own condition name)) _ (some c) reads in
      check_inner-done path name operand c (ground arith) last
  check_by-done path (name ∷ other ∷ more) keys condition c which h = absurd (ground arith)

  check_node-done :
      (v : Value) (path : List Place) (c : Value)
      → check_node f v path ≡ done (some c)
      → IsCondition (suc n) c
  unfolding check_node
  check_node-done (obj fs) path c h = check_by-done path _ (object_keys fs) (obj fs) c refl h
  check_node-done undefined path c h = absurd (ground arith)
  check_node-done Value.null path c h = absurd (ground arith)
  check_node-done Value.callable path c h = absurd (ground arith)
  check_node-done (bool b) path c h = absurd (ground arith)
  check_node-done (num m) path c h = absurd (ground arith)
  check_node-done (str t) path c h = absurd (ground arith)
  check_node-done (arr xs) path c h = absurd (ground arith)

pub check_levels-done :
    (n : ℕ) (v : Value) (path : List Place) (c : Value)
    → check_levels n v path ≡ done (some c)
    → IsCondition n c
unfolding check_levels
check_levels-done zero v path c h = absurd (ground arith)
check_levels-done (suc n) v path c h =
    check_node-done n (check_levels n) (check_levels-done n) v path c h
