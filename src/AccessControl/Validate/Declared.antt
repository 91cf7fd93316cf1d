-- ===== src/AccessControl/Validate/Declared.antt =====
-- What a validated policy is, said without the code that validates: conditions, rules, and the whole.
use first_principles.Base.{
  ◌≡◌, ℕ, suc, String, Bool, true, false, not, ◌&&◌, Option, none, some, List, [], ◌∷◌, ◌++◌,
  str_eq, includes, All, map,
}
use first_principles.AccessControl.Values.{
  Value, str, arr, obj, Slot, given, throwing, Items, nil, cons, field, end, items,
}
use first_principles.AccessControl.Resolve.{split}
use first_principles.AccessControl.Evaluate.{is_some, has_own, is_primitive, max_condition_depth}
use first_principles.AccessControl.Roles.{Inherits}
use first_principles.AccessControl.Policy.{
  Effect, other, Selector, wildcard, malformed, names, RoleList, unrestricted, listed, Rule, Policy,
}
use first_principles.AccessControl.Validate.Conditions.{
  path_roots, forbidden_segments, presence_operators, comparison_operators, membership_operators,
  leaf_alone, leaf_with_operand, is_empty, is_finite_value,
}

abbrev pub IsSegment : String → Type 0
IsSegment segment = (str_eq segment "" ≡ false) × (includes forbidden_segments segment ≡ false)

-- A dotted path from a root to an attribute, through segments that may be walked.
pub record IsAttribute (s : String) : Type 0 where
  pub from_root : includes path_roots (split b'.' s).0 ≡ true
  pub goes_on : is_empty (split b'.' s).1 ≡ false
  pub walkable : All IsSegment (split b'.' s).1

-- A member of the list of `in` or `nin` is any primitive, also NaN or an infinity, which a literal of a comparison
-- may not be.
abbrev pub IsMember : Slot → Type 0
IsMember throwing = ⊥
IsMember (given v) = is_primitive v ≡ true

abbrev pub has_items : Items → Bool
has_items nil = false
has_items (cons _ _) = true

mutual
  -- A condition of at most so many levels.
  pub data IsCondition : ℕ → Value → Type 0 where
    presence :
        {n : ℕ} {p op : String}
        → IsAttribute p
        → includes presence_operators op ≡ true
        → IsCondition (suc n) (leaf_alone (str p) (str op))
    against_attribute :
        {n : ℕ} {p op ref : String}
        → IsAttribute p
        → includes (comparison_operators ++ membership_operators) op ≡ true
        → IsAttribute ref
        → IsCondition (suc n) (leaf_with_operand (str p) (str op) "ref" (str ref))
    against_literal :
        {n : ℕ} {p op : String} {literal : Value}
        → IsAttribute p
        → includes comparison_operators op ≡ true
        → is_primitive literal ≡ true
        → is_finite_value literal ≡ true
        → IsCondition (suc n) (leaf_with_operand (str p) (str op) "value" literal)
    against_members :
        {n : ℕ} {p op : String} {s : Slot} {rest : Items}
        → IsAttribute p
        → includes membership_operators op ≡ true
        → All IsMember (items (cons s rest))
        → IsCondition (suc n) (leaf_with_operand (str p) (str op) "value" (arr (cons s rest)))
    negation :
        {n : ℕ} {c : Value}
        → IsCondition n c
        → IsCondition (suc n) (obj (field "not" (given c) end))
    conjunction :
        {n : ℕ} {cs : Items}
        → AreConditions n cs
        → has_items cs ≡ true
        → IsCondition (suc n) (obj (field "all" (given (arr cs)) end))
    disjunction :
        {n : ℕ} {cs : Items}
        → AreConditions n cs
        → has_items cs ≡ true
        → IsCondition (suc n) (obj (field "any" (given (arr cs)) end))

  pub data AreConditions : ℕ → Items → Type 0 where
    no_more : {n : ℕ} → AreConditions n nil
    one_more :
        {n : ℕ} {c : Value} {cs : Items}
        → IsCondition n c
        → AreConditions n cs
        → AreConditions n (cons (given c) cs)

abbrev pub IsSelected : List String → List String → Type 0
IsSelected declared selected =
    All (λ name. includes declared name ≡ true) selected × (is_empty selected ≡ false)

abbrev pub IsSelection : List String → Selector → Type 0
IsSelection declared wildcard = Unit
IsSelection declared malformed = ⊥
IsSelection declared (names selected) = IsSelected declared selected

abbrev pub IsRoleList : List String → RoleList → Type 0
IsRoleList declared unrestricted = Unit
IsRoleList declared RoleList.malformed = ⊥
IsRoleList declared (listed selected) = IsSelected declared selected

abbrev pub IsGuard : Option Value → Type 0
IsGuard none = Unit
IsGuard (some condition) = IsCondition max_condition_depth condition

abbrev pub is_decided : Effect → Bool
is_decided other = false
is_decided _ = true

-- A rule that refers to declared names only.
pub record IsRule (some_actions some_subjects some_roles : List String) (rule : Rule) : Type 0 where
  pub effect : is_decided rule.effect ≡ true
  pub actions : IsSelection some_actions rule.actions
  pub subjects : IsSelection some_subjects rule.subjects
  pub roles : IsRoleList some_roles rule.roles
  pub guard : IsGuard rule.when

abbrev pub IsName : String → Type 0
IsName name = (str_eq name "" ≡ false) × (str_eq name "*" ≡ false)

unfoldable pub distinct : List String → Bool
distinct [] = true
distinct (x ∷ xs) = not (includes xs x) && distinct xs

abbrev pub id_of : Option String → List String
id_of none = []
id_of (some id) = id ∷ []

-- The ids that the rules have.
abbrev pub ids : List Rule → List String
ids [] = []
ids (rule ∷ rules) = id_of rule.id ++ ids rules

-- The rules are those of the entries of an array, one for one, each with a guard if its entry has one.
abbrev pub AreRead : List Slot → List Rule → Type 0
AreRead [] [] = Unit
AreRead (given (obj fs) ∷ slots) (rule ∷ rules) =
    (is_some rule.when ≡ has_own (obj fs) "when") × AreRead slots rules
AreRead _ _ = ⊥

abbrev pub role_names : Inherits → List String
role_names = map (λ e. e.0)

-- Roles with names that can be used, which inherit from declared ones.
pub record IsRoleGraph (graph : Inherits) : Type 0 where
  pub usable : All IsSegment (role_names graph)
  pub parents : All (λ e. All (λ parent. includes (role_names graph) parent ≡ true) e.1) graph

-- A policy whose names are names, whose roles inherit from declared roles, whose rules refer to declared
-- names, and whose rules have different ids.
pub record IsPolicy (policy : Policy) : Type 0 where
  pub actions : All IsName policy.actions
  pub some_action : is_empty policy.actions ≡ false
  pub subjects : All IsName policy.subjects
  pub some_subject : is_empty policy.subjects ≡ false
  pub roles : IsRoleGraph policy.roles
  pub rules : All (IsRule policy.actions policy.subjects (role_names policy.roles)) policy.rules
  pub distinct_ids : distinct (ids policy.rules) ≡ true
