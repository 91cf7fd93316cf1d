-- ===== src/AccessControl/Validate/Leaves.antt =====
-- A leaf that passes its check is a condition.
use first_principles.Base.{
  ◌≡◌, refl, sym, ap, ◌∙◌, inl, inr, ℕ, suc, String, Bool, true, false, not, Option, none, some,
  List, [], ◌∷◌, ◌++◌, includes, All, Bool-cases, arith,
}
use first_principles.AccessControl.Values.{
  Value, undefined, num, str, bool, arr, obj, Slot, given, throwing, nil, cons, items,
}
use first_principles.AccessControl.Resolve.{split}
use first_principles.AccessControl.Evaluate.{read_own}
use first_principles.AccessControl.Validate.Checks.{
  Place, Check, done, reading, bind-done, unless-done,
}
use first_principles.AccessControl.Validate.Conditions.{
  path_roots, child, check_segments, check_parts, check_path, OperatorKind, presence, comparison,
  membership, unrecognized, kind_of, presence_operators, comparison_operators, membership_operators,
  leaf_alone, leaf_with_operand, every_primitive, check_members, check_literal, others, leaf_keys,
  check_operand, check_operator, check_leaf, read_leaf, is_empty,
}
use first_principles.AccessControl.Validate.Declared.{
  IsSegment, IsAttribute, IsMember, IsCondition, against_attribute, against_literal,
  against_members,
}

check_segments-done :
    (path : List Place) (segments : List String)
    → check_segments path segments ≡ done tt
    → All IsSegment segments
unfolding check_segments
check_segments-done path [] h = tt
check_segments-done path (s ∷ rest) h = ground (arith, check_segments-done path rest)

check_parts-done :
    (path : List Place) (parts : String × List String)
    → check_parts path parts ≡ done tt
    → (includes path_roots parts.0 ≡ true) × (is_empty parts.1 ≡ false) × All IsSegment parts.1
unfolding check_parts
check_parts-done path (root, []) h = absurd (ground arith)
check_parts-done path (root, s ∷ rest) h = ground (arith, check_segments-done path (s ∷ rest))

-- A value that passes as a path is a text that is one.
pub check_path-done :
    (v : Value) (path : List Place)
    → check_path v path ≡ done tt
    → (s : String) × (v ≡ str s) × IsAttribute s
unfolding check_path
check_path-done (str s) path h =
    let (root, on, walkable) = check_parts-done path (split b'.' s) (ground arith) in
    (s, refl, record { from_root = root; goes_on = on; walkable = walkable })
check_path-done (undefined) path h = absurd (ground arith)
check_path-done (Value.null) path h = absurd (ground arith)
check_path-done (Value.callable) path h = absurd (ground arith)
check_path-done (bool b) path h = absurd (ground arith)
check_path-done (num n) path h = absurd (ground arith)
check_path-done (arr xs) path h = absurd (ground arith)
check_path-done (obj fs) path h = absurd (ground arith)

every_primitive-done : (slots : List Slot) → every_primitive slots ≡ done true → All IsMember slots
unfolding every_primitive
every_primitive-done [] h = tt
every_primitive-done (throwing ∷ rest) h = absurd (ground arith)
every_primitive-done (given v ∷ rest) h = ground (arith, every_primitive-done rest)

kind_of-membership :
    (op : String) → kind_of (str op) ≡ membership → includes membership_operators op ≡ true
unfolding kind_of
kind_of-membership op h = ground arith

kind_of-comparison :
    (op : String) → kind_of (str op) ≡ comparison → includes comparison_operators op ≡ true
unfolding kind_of
kind_of-comparison op h = ground arith

abbrev pub is_operand_kind : OperatorKind → Bool
is_operand_kind comparison = true
is_operand_kind membership = true
is_operand_kind _ = false

kind_of-binary :
    (op : String) (kind : OperatorKind)
    → kind_of (str op) ≡ kind
    → is_operand_kind kind ≡ true
    → includes (comparison_operators ++ membership_operators) op ≡ true
unfolding kind_of
kind_of-binary op kind h binary = ground arith

kind_of-presence :
    (op : String) → kind_of (str op) ≡ presence → includes presence_operators op ≡ true
unfolding kind_of
kind_of-presence op h = ground arith

pub some-done :
    (a b : Value) → ◌≡◌ {A = Check (Option Value)} (done (some a)) (done (some b)) → a ≡ b
some-done a b h = ground arith

module _ (n : ℕ) (p op : String) (attribute : IsAttribute p) where
  check_members-done :
      (path : List Place) (literal c : Value)
      → includes membership_operators op ≡ true
      → check_members path (str p) (str op) literal ≡ done (some c)
      → IsCondition (suc n) c
  unfolding check_members
  check_members-done path (arr (cons s rest)) c known h =
      let (all_primitive, e, e') = bind-done (every_primitive (items (cons s rest))) _ (some c) h in
      elim (Bool-cases all_primitive) [
        | inl all_are ↦
            rw
              (← some-done (leaf_with_operand (str p) (str op) "value" (arr (cons s rest))) c
                (ground (arith, all_are)))
              (against_members attribute known
                (every_primitive-done (items (cons s rest)) (e ∙ ap done all_are)))
        | inr not_all ↦ absurd (ground arith)
      ]
  check_members-done path (arr nil) c known h = absurd (ground arith)
  check_members-done path undefined c known h = absurd (ground arith)
  check_members-done path Value.null c known h = absurd (ground arith)
  check_members-done path Value.callable c known h = absurd (ground arith)
  check_members-done path (bool b) c known h = absurd (ground arith)
  check_members-done path (num m) c known h = absurd (ground arith)
  check_members-done path (str t) c known h = absurd (ground arith)
  check_members-done path (obj fs) c known h = absurd (ground arith)

  check_literal-done :
      (path : List Place) (literal c : Value)
      → includes comparison_operators op ≡ true
      → check_literal path (str p) (str op) literal ≡ done (some c)
      → IsCondition (suc n) c
  unfolding check_literal
  check_literal-done path literal c known h =
      rw (← some-done (leaf_with_operand (str p) (str op) "value" literal) c (ground arith))
        (against_literal attribute known (ground arith) (ground arith))

  check_operand-done :
      (path : List Place) (kind : OperatorKind) (has_ref : Bool) (condition c : Value)
      → kind_of (str op) ≡ kind
      → is_operand_kind kind ≡ true
      → check_operand path kind (str p) (str op) has_ref condition ≡ done (some c)
      → IsCondition (suc n) c
  unfolding check_operand
  check_operand-done path kind true condition c known binary h =
      let (ref, e, more) = bind-done (reading (read_own condition "ref")) _ (some c) h in
      let (_, checked, last) = bind-done (check_path ref (child path "ref")) _ (some c) more in
      let (s, same, attribute') = check_path-done ref (child path "ref") checked in
      rw
        (← some-done (leaf_with_operand (str p) (str op) "ref" (str s)) c
          (ground (arith, same, last)))
        (against_attribute attribute (kind_of-binary op kind known binary) attribute')
  check_operand-done path comparison false condition c known binary h =
      let (literal, e, more) = bind-done (reading (read_own condition "value")) _ (some c) h in
      check_literal-done (child path "value") literal c (kind_of-comparison op known) more
  check_operand-done path membership false condition c known binary h =
      let (literal, e, more) = bind-done (reading (read_own condition "value")) _ (some c) h in
      check_members-done (child path "value") literal c (kind_of-membership op known) more
  check_operand-done path presence false condition c known binary h = absurd (ground arith)
  check_operand-done path unrecognized false condition c known binary h = absurd (ground arith)

  check_operator-done :
      (path : List Place) (kind : OperatorKind) (keys : List String) (condition c : Value)
      → kind_of (str op) ≡ kind
      → check_operator path kind (str p) (str op) keys condition ≡ done (some c)
      → IsCondition (suc n) c
  unfolding check_operator
  check_operator-done path presence keys condition c known h =
      rw (← some-done (leaf_alone (str p) (str op)) c (ground arith))
        (IsCondition.presence attribute (kind_of-presence op known))
  check_operator-done path comparison keys condition c known h =
      check_operand-done path comparison (includes keys "ref") condition c known refl (ground arith)
  check_operator-done path membership keys condition c known h =
      check_operand-done path membership (includes keys "ref") condition c known refl (ground arith)
  check_operator-done path unrecognized keys condition c known h = absurd (ground arith)

-- The value of `op` is a text, since its kind is known.
operator-done :
    (n : ℕ) (p : String) (path : List Place) (op : Value) (keys : List String) (condition c : Value)
    → IsAttribute p
    → check_operator path (kind_of op) (str p) op keys condition ≡ done (some c)
    → IsCondition (suc n) c
unfolding kind_of check_operator
operator-done n p path (str op) keys condition c attribute h =
    check_operator-done n p op attribute path (kind_of (str op)) keys condition c refl h
operator-done n p path undefined keys condition c attribute h = absurd (ground arith)
operator-done n p path Value.null keys condition c attribute h = absurd (ground arith)
operator-done n p path Value.callable keys condition c attribute h = absurd (ground arith)
operator-done n p path (bool b) keys condition c attribute h = absurd (ground arith)
operator-done n p path (num m) keys condition c attribute h = absurd (ground arith)
operator-done n p path (arr xs) keys condition c attribute h = absurd (ground arith)
operator-done n p path (obj fs) keys condition c attribute h = absurd (ground arith)

pub check_leaf-done :
    (n : ℕ) (path : List Place) (condition c : Value) (keys : List String)
    → check_leaf path condition keys ≡ done (some c)
    → IsCondition (suc n) c
unfolding check_leaf read_leaf
check_leaf-done n path condition c keys h =
    let (_, reads) =
      unless-done (not (is_empty (others leaf_keys keys))) path _ none (some c) _ h in
    let (left, _, after_left) = bind-done (reading (read_own condition "path")) _ (some c) reads in
    let (_, checked, after_path) =
      bind-done (check_path left (child path "path")) _ (some c) after_left in
    let (op, _, last) = bind-done (reading (read_own condition "op")) _ (some c) after_path in
    let (p, same, attribute) = check_path-done left (child path "path") checked in
    operator-done n p path op keys condition c attribute
      (ap (λ l. check_operator path (kind_of op) l op keys condition) (sym same) ∙ last)
