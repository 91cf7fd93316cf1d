-- ===== src/AccessControl/Roles/Closure.antt =====
-- The closure of a role holds exactly the roles that it inherits from, itself included.
use mathlib.Core.List.{reverse, reverse-cons}
use mathlib.Core.Option.{some-injective}
use mathlib.Core.Path.{subst}
use first_principles.Base.{
  ◌≡◌, refl, ◌↔◌, inl, inr, ℕ, zero, suc, ◌+◌, ◌≤◌, String, Bool, true, false, ◌||◌, ◌&&◌, not,
  some, List, [], ◌∷◌, length, length-append, includes, includes-append, str_eq, str_eq_iff,
  str_eq_refl, arith, Bool-cases,
}
use first_principles.AccessControl.Roles.{
  Inherits, parents, add, push_parents, reach_loop, weight, closure,
}

-- `role` names `parent` in its list.
abbrev pub Edge : Inherits → String → String → Type 0
Edge inherits role parent = includes (parents inherits role) parent ≡ true

-- What a role inherits from, through any number of steps.
pub data Reach (inherits : Inherits) (role : String) : String → Type 0 where
  here : Reach inherits role role
  step : {u v : String} → Reach inherits role u → Edge inherits u v → Reach inherits role v

pub includes-add :
    (set : List String) (a b : String) → includes (add set a) b ≡ includes set b || str_eq a b
unfolding add
includes-add set a b = elim (Bool-cases (includes set a)) [
  | inl old ↦ rw old (includes_known set a b old)
  | inr new ↦ rw new (rw includes-append (ground arith))
]
  where
    includes_known :
        (s : List String) (x y : String)
        → includes s x ≡ true
        → includes s y ≡ includes s y || str_eq x y
    includes_known s x y h = ground (arith, str_eq_iff x y)

includes-reverse : (xs : List String) (a : String) → includes (reverse xs) a ≡ includes xs a
includes-reverse [] a = refl
includes-reverse (x ∷ xs) a =
    rw (reverse-cons, includes-append, includes-reverse xs a) (ground arith)

length-reverse : (xs : List String) → length (reverse xs) ≡ length xs
length-reverse [] = refl
length-reverse (x ∷ xs) = rw (reverse-cons, length-append, length-reverse xs) (omega arith)

weight-add-le :
    (inherits : Inherits) (reached : List String) (role : String)
    → weight inherits (add reached role) ≤ weight inherits reached
unfolding weight
weight-add-le [] reached role = omega arith
weight-add-le ((k, ps) ∷ inherits) reached role =
    ground (arith, includes-add reached role k, weight-add-le inherits reached role)

-- Marking a role takes its parents off the weight.
weight-add :
    (inherits : Inherits) (reached : List String) (role : String)
    → includes reached role ≡ false
    → weight inherits (add reached role) + length (parents inherits role) ≤ weight inherits reached
unfolding weight parents
weight-add [] reached role h = omega arith
weight-add ((k, ps) ∷ inherits) reached role h = ground (
  arith,
  includes-add reached role k,
  str_eq_iff k role,
  str_eq_iff role k,
  weight-add-le inherits reached role,
  weight-add inherits reached role h,
)

abbrev work : Inherits → List String → List String → ℕ
work inherits reached pending = weight inherits reached + length pending

work-step :
    (inherits : Inherits) (reached : List String) (current : String) (rest : List String)
    → suc (work inherits (add reached current) (push_parents inherits reached current rest))
      ≤ work inherits reached (current ∷ rest)
work-step inherits reached current rest = elim (Bool-cases (includes reached current)) [
  | inl old ↦ rw old (omega (arith, weight-add-le inherits reached current))
  | inr new ↦
      rw (new, length-append, length-reverse)
        (omega (arith, weight-add inherits reached current new))
]

-- With fuel for the work that is left the loop ends.
loop_ends :
    (inherits : Inherits) (fuel : ℕ) (reached pending : List String)
    → work inherits reached pending ≤ fuel
    → (done : List String) × (reach_loop inherits fuel reached pending ≡ some done)
unfolding reach_loop
loop_ends inherits zero reached [] h = (reached, refl)
loop_ends inherits (suc fuel) reached [] h = (reached, refl)
loop_ends inherits zero reached (current ∷ rest) h = absurd (omega arith)
loop_ends inherits (suc fuel) reached (current ∷ rest) h =
    loop_ends inherits fuel (add reached current) (push_parents inherits reached current rest)
      (omega (arith, work-step inherits reached current rest))

includes-push_parents :
    (inherits : Inherits) (reached : List String) (current : String) (rest : List String)
    (v : String)
    → includes (push_parents inherits reached current rest) v
      ≡ (not (includes reached current) && includes (parents inherits current) v) || includes rest v
includes-push_parents inherits reached current rest v =
    elim (Bool-cases (includes reached current)) [
      | inl old ↦ rw old
      | inr new ↦ rw (new, includes-append, includes-reverse)
    ]

module _ (inherits : Inherits) (role : String) where
  abbrev known : List String → List String → String → Bool
  known reached pending v = includes reached v || includes pending v

  record Inv (reached pending : List String) : Type 0 where
    source : known reached pending role ≡ true
    sound : (v : String) → known reached pending v ≡ true → Reach inherits role v
    closed :
        (u v : String)
        → includes reached u ≡ true
        → Edge inherits u v
        → known reached pending v ≡ true

  module _ (reached : List String) (current : String) (rest : List String)
      (h : Inv reached (current ∷ rest)) where
    sound-step :
        (v : String)
        → known (add reached current) (push_parents inherits reached current rest) v ≡ true
        → Reach inherits role v
    sound-step v k = elim (Bool-cases (known reached (current ∷ rest) v)) [
      | inl old ↦ h.sound v old
      | inr new ↦ step (h.sound current (ground (arith, str_eq_refl current))) (
          ground (
            arith,
            includes-add reached current v,
            includes-push_parents inherits reached current rest v,
          ))
    ]

    closed-step :
        (u v : String)
        → includes (add reached current) u ≡ true
        → Edge inherits u v
        → known (add reached current) (push_parents inherits reached current rest) v ≡ true
    closed-step u v k e = ground (
      arith,
      includes-add reached current u,
      includes-add reached current v,
      includes-push_parents inherits reached current rest v,
      str_eq_iff current u,
      h.closed u v,
    )

    Inv-step : Inv (add reached current) (push_parents inherits reached current rest)
    Inv-step = record {
      source = ground (
        arith,
        includes-add reached current role,
        includes-push_parents inherits reached current rest role,
        h.source,
      );
      sound = sound-step;
      closed = closed-step;
    }

  loop_rule :
      (fuel : ℕ) (reached pending done : List String)
      → Inv reached pending
      → reach_loop inherits fuel reached pending ≡ some done
      → Inv done []
  unfolding reach_loop
  loop_rule zero reached [] done h e = subst (λ r. Inv r []) (some-injective _ _ e) h
  loop_rule (suc fuel) reached [] done h e = subst (λ r. Inv r []) (some-injective _ _ e) h
  loop_rule zero reached (current ∷ rest) done h e = absurd (ground arith)
  loop_rule (suc fuel) reached (current ∷ rest) done h e =
      loop_rule fuel (add reached current) (push_parents inherits reached current rest) done
        (Inv-step reached current rest h) e

  Inv-start : Inv [] (role ∷ [])
  Inv-start = record {
    source = ground (arith, str_eq_refl role);
    sound = λ v k. subst (λ w. Reach inherits role w) ((str_eq_iff role v).0 (ground arith)) here;
    closed = λ u v k e. cc;
  }

  complete :
      (done : List String)
      → Inv done []
      → {v : String} → Reach inherits role v
      → includes done v ≡ true
  complete done h here = ground (arith, h.source)
  complete done h (step {u} {v} r e) = ground (arith, h.closed u v (complete done h r) e)

  -- The loop does not run out of fuel, and what it returns is the closure.
  pub closure_returns :
      reach_loop inherits (weight inherits [] + 1) [] (role ∷ []) ≡ some (closure inherits role)
  unfolding closure
  closure_returns =
      let (done, e) = loop_ends inherits (weight inherits [] + 1) [] (role ∷ []) (omega arith) in
      rw e

  Inv-closure : Inv (closure inherits role) []
  Inv-closure =
      loop_rule (weight inherits [] + 1) [] (role ∷ []) (closure inherits role) Inv-start
        closure_returns

-- The closure of a role holds exactly what the role inherits from through any number of steps,
-- cycles included, and the role itself.
pub closure_correct :
    (inherits : Inherits) (role v : String)
    → (includes (closure inherits role) v ≡ true) ↔ Reach inherits role v
closure_correct inherits role v = (
  λ k. (Inv-closure inherits role).sound v (ground arith),
  complete inherits role (closure inherits role) (Inv-closure inherits role),
)
