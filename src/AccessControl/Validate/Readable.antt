-- ===== src/AccessControl/Validate/Readable.antt =====
-- A leaf that is a condition passes its check as it is.
use first_principles.Base.{
  ◌≡◌, refl, sym, ap, ◌∙◌, ◌≢◌, inl, inr, ℕ, suc, String, Bool, true, false, some, List, [], ◌∷◌,
  ◌++◌, str_eq, str_eq_iff, includes, All, Bool-cases, arith,
}
use first_principles.AccessControl.Values.{
  Value, str, arr, Slot, given, throwing, Items, cons, items, own,
}
use first_principles.AccessControl.Resolve.{split}
use first_principles.AccessControl.Evaluate.{read_own, is_primitive}
use first_principles.AccessControl.Validate.Checks.{Place, done, adding-nil, bind-of-done}
use first_principles.AccessControl.Validate.Conditions.{
  path_roots, child, check_segments, check_parts, check_path, OperatorKind, presence, comparison,
  membership, unrecognized, kind_of, presence_operators, comparison_operators, membership_operators,
  leaf_alone, leaf_with_operand, every_primitive, check_members, check_literal, check_operand,
  check_operator, check_leaf, read_leaf, check_by, check_node, check_levels, is_empty,
  is_finite_value,
}
use first_principles.AccessControl.Validate.Declared.{IsSegment, IsAttribute, IsMember}
use first_principles.AccessControl.Validate.Leaves.{is_operand_kind}

check_segments-walkable :
    (path : List Place) (segments : List String)
    → All IsSegment segments
    → check_segments path segments ≡ done tt
unfolding check_segments
check_segments-walkable path [] h = refl
check_segments-walkable path (s ∷ rest) h = ground (arith, h, check_segments-walkable path rest h.1)

check_parts-walkable :
    (path : List Place) (parts : String × List String)
    → includes path_roots parts.0 ≡ true
    → is_empty parts.1 ≡ false
    → All IsSegment parts.1
    → check_parts path parts ≡ done tt
unfolding check_parts
check_parts-walkable path (root, []) rooted goes_on walkable = absurd (ground arith)
check_parts-walkable path (root, s ∷ rest) rooted goes_on walkable =
    ground (arith, rooted, check_segments-walkable path (s ∷ rest) walkable)

empty_goes_nowhere : ◌≢◌ {A = Bool} (is_empty (split b'.' "").1) false
unfolding split
empty_goes_nowhere h = ground (arith, h)

not_empty : (s : String) → is_empty (split b'.' s).1 ≡ false → str_eq s "" ≡ false
not_empty s h = elim (Bool-cases (str_eq s "")) [
  | inl empty ↦ absurd (
      empty_goes_nowhere
        (ap (λ t. is_empty (split b'.' t).1) (sym ((str_eq_iff s "").0 empty)) ∙ h))
  | inr full ↦ full
]

pub check_path-attribute :
    (s : String) (path : List Place) → IsAttribute s → check_path (str s) path ≡ done tt
unfolding check_path
check_path-attribute s path h = ground (
  arith,
  not_empty s h.goes_on,
  check_parts-walkable path (split b'.' s) h.from_root h.goes_on h.walkable,
)

All-includes :
    (P : String → Type 0) (xs : List String) (x : String) → All P xs → includes xs x ≡ true → P x
All-includes P [] x h there = absurd (ground arith)
All-includes P (y ∷ xs) x h there = elim (Bool-cases (str_eq y x)) [
  | inl same ↦ rw (← (str_eq_iff y x).0 same) h.0
  | inr other ↦ All-includes P xs x h.1 (ground (arith, there, other))
]

pub kind_of-presence :
    (op : String) → includes presence_operators op ≡ true → kind_of (str op) ≡ presence
unfolding kind_of str_eq
kind_of-presence op =
    All-includes (λ op. kind_of (str op) ≡ presence) presence_operators op (refl, (refl, tt))

pub kind_of-comparison :
    (op : String) → includes comparison_operators op ≡ true → kind_of (str op) ≡ comparison
unfolding kind_of str_eq
kind_of-comparison op =
    All-includes (λ op. kind_of (str op) ≡ comparison) comparison_operators op
      (refl, (refl, (refl, (refl, (refl, (refl, (refl, tt)))))))

pub kind_of-membership :
    (op : String) → includes membership_operators op ≡ true → kind_of (str op) ≡ membership
unfolding kind_of str_eq
kind_of-membership op =
    All-includes (λ op. kind_of (str op) ≡ membership) membership_operators op (refl, (refl, tt))

pub kind_of-binary :
    (op : String)
    → includes (comparison_operators ++ membership_operators) op ≡ true
    → is_operand_kind (kind_of (str op)) ≡ true
unfolding kind_of str_eq
kind_of-binary op =
    All-includes (λ op. is_operand_kind (kind_of (str op)) ≡ true)
      (comparison_operators ++ membership_operators) op
      (refl, (refl, (refl, (refl, (refl, (refl, (refl, (refl, (refl, tt)))))))))

module _ (n : ℕ) (left op : Value) (path : List Place)
    (checked : check_path left (child path "path") ≡ done tt) where
  pub check_levels-alone :
      check_levels (suc n) (leaf_alone left op) path
      ≡ check_operator path (kind_of op) left op ("path" ∷ "op" ∷ []) (leaf_alone left op)
  unfolding check_levels check_node check_by check_leaf read_leaf read_own own str_eq
  check_levels-alone =
      adding-nil _
      ∙ (bind-of-done (check_path left (child path "path")) tt _ checked ∙ adding-nil _)

  pub check_levels-value :
      (v : Value)
      → check_levels (suc n) (leaf_with_operand left op "value" v) path
        ≡ check_operator path
            (kind_of op)
            left
            op
            ("path" ∷ "op" ∷ "value" ∷ [])
            (leaf_with_operand left op "value" v)
  unfolding check_levels check_node check_by check_leaf read_leaf read_own own str_eq
  check_levels-value v =
      adding-nil _
      ∙ (bind-of-done (check_path left (child path "path")) tt _ checked ∙ adding-nil _)

  pub check_levels-ref :
      (v : Value)
      → check_levels (suc n) (leaf_with_operand left op "ref" v) path
        ≡ check_operator path
            (kind_of op)
            left
            op
            ("path" ∷ "op" ∷ "ref" ∷ [])
            (leaf_with_operand left op "ref" v)
  unfolding check_levels check_node check_by check_leaf read_leaf read_own own str_eq
  check_levels-ref v =
      adding-nil _
      ∙ (bind-of-done (check_path left (child path "path")) tt _ checked ∙ adding-nil _)

module _ (p : String) (op : Value) (path : List Place) where
  pub presence-passes :
      check_operator path presence (str p) op ("path" ∷ "op" ∷ []) (leaf_alone (str p) op)
      ≡ done (some (leaf_alone (str p) op))
  unfolding check_operator str_eq
  presence-passes = refl

  pub ref-passes :
      (kind : OperatorKind) (ref : String)
      → is_operand_kind kind ≡ true
      → check_path (str ref) (child path "ref") ≡ done tt
      → check_operator path kind
          (str p)
          op
          ("path" ∷ "op" ∷ "ref" ∷ [])
          (leaf_with_operand (str p) op "ref" (str ref))
        ≡ done (some (leaf_with_operand (str p) op "ref" (str ref)))
  unfolding check_operator check_operand str_eq read_own own
  ref-passes comparison ref binary checked =
      adding-nil _ ∙ bind-of-done (check_path (str ref) (child path "ref")) tt _ checked
  ref-passes membership ref binary checked =
      adding-nil _ ∙ bind-of-done (check_path (str ref) (child path "ref")) tt _ checked
  ref-passes presence ref binary checked = absurd (ground arith)
  ref-passes unrecognized ref binary checked = absurd (ground arith)

  pub literal-passes :
      (v : Value)
      → is_primitive v ≡ true
      → is_finite_value v ≡ true
      → check_operator path comparison
          (str p)
          op
          ("path" ∷ "op" ∷ "value" ∷ [])
          (leaf_with_operand (str p) op "value" v)
        ≡ done (some (leaf_with_operand (str p) op "value" v))
  unfolding check_operator check_operand check_literal str_eq read_own own
  literal-passes v primitive finite = adding-nil _ ∙ ground (arith, primitive, finite)

  every_primitive-members :
      (slots : List Slot) → All IsMember slots → every_primitive slots ≡ done true
  unfolding every_primitive
  every_primitive-members [] h = refl
  every_primitive-members (throwing ∷ rest) h = absurd h.0
  every_primitive-members (given v ∷ rest) h = ground (arith, h.0, every_primitive-members rest h.1)

  pub members-pass :
      (s : Slot) (rest : Items)
      → All IsMember (items (cons s rest))
      → check_operator path membership
          (str p)
          op
          ("path" ∷ "op" ∷ "value" ∷ [])
          (leaf_with_operand (str p) op "value" (arr (cons s rest)))
        ≡ done (some (leaf_with_operand (str p) op "value" (arr (cons s rest))))
  unfolding check_operator check_operand check_members str_eq read_own own
  members-pass s rest members =
      adding-nil _
      ∙ bind-of-done (every_primitive (items (cons s rest))) true _
          (every_primitive-members (items (cons s rest)) members)
