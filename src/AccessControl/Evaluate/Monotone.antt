-- ===== src/AccessControl/Evaluate/Monotone.antt =====
-- Supplying more of the context never changes a definite verdict.
use first_principles.Base.{
  if◌then◌else◌, str_eq, ◌≡◌, refl, ◌≢◌, ◌⊎◌, inl, inr, ℕ, zero, suc, Bool, true, false, String,
  List, [], ◌∷◌, arith, not, ◌||◌,
}
use first_principles.AccessControl.Truth.{Ternary, unknown, all, any, negate, AllBelow}
use first_principles.AccessControl.Truth.Laws.{all-Below, any-Below}
use first_principles.AccessControl.Values.{
  Value, str, arr, Slot, given, throwing, cons, Completion, normal, throw, ◌>>=◌, items, is_object,
}
use first_principles.AccessControl.Resolve.{
  Resolved, value, absent, unresolved, AttributeEnvironment,
}
use first_principles.AccessControl.Resolve.Context.{Within, resolve_path-Within}
use first_principles.AccessControl.Evaluate.{
  has_own, read_own, apply_binary, apply_ref, leaf_with, leaf, map_slots, combine, evaluate_node,
  evaluate, presence, evaluate_condition,
}

-- The second throws, or it is the first with less unknown.
abbrev pub Improves : Completion Ternary → Completion Ternary → Type 0
Improves a b = (b ≡ throw) ⊎ (a ≡ b) ⊎ (a ≡ normal unknown)

-- What an operand became when the context grew.
abbrev Grown : Resolved → Resolved → Type 0
Grown l m = (l ≡ unresolved) ⊎ (l ≡ m)

bind-Improves :
    (m : Completion Value) (f g : Value → Completion Ternary)
    → ((v : Value) → Improves (f v) (g v))
    → Improves (m >>= f) (m >>= g)
bind-Improves (normal v) f g h = h v
bind-Improves throw f g h = inl refl

if-Improves :
    (t : Bool) (w x y z : Completion Ternary)
    → Improves w y
    → Improves x z
    → Improves (if t then w else x) (if t then y else z)
if-Improves true w x y z h k = h
if-Improves false w x y z h k = k

apply_binary-Improves :
    (op : String) (l m r s : Resolved)
    → Grown l m
    → Grown r s
    → Improves (apply_binary op l r) (apply_binary op m s)
unfolding apply_binary
apply_binary-Improves op (value x) m (value y) s h k = ground arith
apply_binary-Improves op absent m (value y) s h k = ground arith
apply_binary-Improves op unresolved m r s h k = inr (inr refl)
apply_binary-Improves op l m unresolved s h k = inr (inr refl)
apply_binary-Improves op l m absent s h k = inr (inr refl)

presence-Improves :
    (wanted : Bool) (l m : Resolved)
    → Grown l m
    → Improves (normal (presence wanted l)) (normal (presence wanted m))
presence-Improves wanted l m h = ground arith

module _ (a b : AttributeEnvironment) (h : Within a b) where
  apply_ref-Improves :
      (op : String) (l m : Resolved) (ref : Value)
      → Grown l m
      → Improves (apply_ref a op l ref) (apply_ref b op m ref)
  unfolding apply_ref
  apply_ref-Improves op l m (str ref) k =
      apply_binary-Improves op l m _ _ k (resolve_path-Within a b ref h)
  apply_ref-Improves op l m _ k = inr (inl refl)

  leaf_with-Improves :
      (c path op : Value) → Improves (leaf_with a c path op) (leaf_with b c path op)
  unfolding leaf_with
  leaf_with-Improves c (str path) (str op) =
      let grown = resolve_path-Within a b path h in
      if-Improves (str_eq op "exists" || str_eq op "notExists") _ _ _ _
        (presence-Improves (str_eq op "exists") _ _ grown)
        (if-Improves (has_own c "ref") _ _ _ _
          (bind-Improves (read_own c "ref") _ _ (λ ref. apply_ref-Improves op _ _ ref grown))
          (if-Improves (has_own c "value") _ (normal unknown) _ _
            (bind-Improves (read_own c "value") _ _
              (λ literal. apply_binary-Improves op _ _ (value literal) _ grown (inr refl)))
            (inr (inl refl))))
  leaf_with-Improves c _ _ = inr (inl refl)

  leaf-Improves : (c : Value) → Improves (leaf a c) (leaf b c)
  unfolding leaf
  leaf-Improves c =
      bind-Improves (read_own c "path") _ _
        (λ path. bind-Improves (read_own c "op") _ _ (λ op. leaf_with-Improves c path op))

-- The verdicts of the operands of `all` and `any`.
abbrev AllImprove : Completion (List Ternary) → Completion (List Ternary) → Type 0
AllImprove x throw = Unit
AllImprove throw (normal ys) = ⊥
AllImprove (normal xs) (normal ys) = AllBelow xs ys

AllImprove-cons :
    (x y : Completion Ternary) (xs ys : Completion (List Ternary))
    → Improves x y
    → AllImprove xs ys
    → AllImprove (x >>= λ t. xs >>= λ ts. normal (t ∷ ts)) (y >>= λ t. ys >>= λ ts. normal (t ∷ ts))
AllImprove-cons x throw xs ys h k = tt
AllImprove-cons x (normal t) xs throw h k = tt
AllImprove-cons throw (normal t) xs (normal ys) h k = absurd (ground arith)
AllImprove-cons (normal s) (normal t) throw (normal ys) h k = k
AllImprove-cons (normal s) (normal t) (normal xs) (normal ys) h k = (ground arith, k)

connective-Improves :
    (conj : Bool) (xs ys : Completion (List Ternary))
    → AllImprove xs ys
    → Improves
        (xs >>= λ ts. normal (if conj then all ts else any ts))
        (ys >>= λ ts. normal (if conj then all ts else any ts))
connective-Improves conj xs throw h = inl refl
connective-Improves conj throw (normal ys) h = elim h [ ]
connective-Improves true (normal xs) (normal ys) h = ground (arith, all-Below xs ys h)
connective-Improves false (normal xs) (normal ys) h = ground (arith, any-Below xs ys h)

negate-Improves :
    (x y : Completion Ternary)
    → Improves x y
    → Improves (x >>= λ t. normal (negate t)) (y >>= λ t. normal (negate t))
unfolding negate
negate-Improves x y h = ground arith

module _ (f g : Value → Completion Ternary) (k : (v : Value) → Improves (f v) (g v)) where
  map_slots-AllImprove : (l : List Slot) → AllImprove (map_slots f l) (map_slots g l)
  unfolding map_slots
  map_slots-AllImprove [] = tt
  map_slots-AllImprove (throwing ∷ l) = tt
  map_slots-AllImprove (given v ∷ l) =
      AllImprove-cons (f v) (g v) (map_slots f l) (map_slots g l) (k v) (map_slots-AllImprove l)

  combine-Improves : (conj : Bool) (c : Value) → Improves (combine f conj c) (combine g conj c)
  unfolding combine
  combine-Improves conj (arr (cons s rest)) =
      connective-Improves conj (map_slots f (items (cons s rest)))
        (map_slots g (items (cons s rest))) (map_slots-AllImprove (items (cons s rest)))
  combine-Improves conj _ = inr (inl refl)

  evaluate_node-Improves :
      (a b : AttributeEnvironment)
      → Within a b
      → (c : Value) → Improves (evaluate_node f a c) (evaluate_node g b c)
  unfolding evaluate_node
  evaluate_node-Improves a b h c =
      if-Improves (not (is_object c)) (normal unknown) _ _ _ (inr (inl refl)) (
        if-Improves (has_own c "all" || has_own c "any") _ _ _ _
          (bind-Improves (read_own c (if has_own c "all" then "all" else "any")) _ _
            (combine-Improves (has_own c "all")))
          (if-Improves (has_own c "not") _ _ _ _
            (bind-Improves (read_own c "not") _ _
              (λ inner. negate-Improves (f inner) (g inner) (k inner)))
            (leaf-Improves a b h c)))

evaluate-Improves :
    (fuel : ℕ) (a b : AttributeEnvironment)
    → Within a b
    → (c : Value) → Improves (evaluate fuel a c) (evaluate fuel b c)
unfolding evaluate
evaluate-Improves zero a b h c = inr (inl refl)
evaluate-Improves (suc fuel) a b h c =
    evaluate_node-Improves _ _ (evaluate-Improves fuel a b h) a b h c

-- A definite verdict in an environment that lacks some of the roots is the verdict in every
-- environment that supplies them too and in which the evaluation does not throw.
pub evaluate_condition_definite :
    (a b : AttributeEnvironment) (c : Value) (t : Ternary)
    → Within a b
    → evaluate_condition c a ≡ normal t
    → t ≢ unknown
    → evaluate_condition c b ≢ throw
    → evaluate_condition c b ≡ normal t
unfolding evaluate_condition
evaluate_condition_definite a b c t h e d n = ground (arith, evaluate-Improves 32 a b h c)
