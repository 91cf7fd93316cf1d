-- ===== src/AccessControl/Validate/Collected.antt =====
-- The rules that pass, as they are collected: all of them, with different ids.
use mathlib.Core.List.{append-nil, append_assoc}
use first_principles.Base.{
  ◌≡◌, refl, sym, ap, ◌∙◌, inl, inr, ℕ, ◌+◌, String, true, false, Option, none, some, List, [], ◌∷◌,
  ◌++◌, str_eq_iff, includes, includes-append, All, All-snoc, Bool-cases, Option-cases, arith,
}
use first_principles.AccessControl.Values.{
  Value, undefined, num, str, bool, arr, obj, Slot, given, throwing, Items, items,
}
use first_principles.AccessControl.Policy.{Rule}
use first_principles.AccessControl.Validate.Checks.{Place, key, done, bind-done}
use first_principles.AccessControl.Validate.Conditions.{nth}
use first_principles.AccessControl.Validate.Rules.{
  for_each, settled, read_rule, check_rule, Seen, keep_rule, add_rule, read_rules,
}
use first_principles.AccessControl.Validate.Declared.{IsRule, distinct, id_of, ids, AreRead}
use first_principles.AccessControl.Validate.Accepted.{settled-quiet, read_rule-done}

distinct-snoc :
    (xs : List String) (x : String)
    → distinct xs ≡ true
    → includes xs x ≡ false
    → distinct (xs ++ x ∷ []) ≡ true
unfolding distinct
distinct-snoc [] x h fresh = refl
distinct-snoc (y ∷ xs) x h fresh = ground (
  arith,
  distinct-snoc xs x,
  h,
  fresh,
  includes-append xs (x ∷ []) y,
  str_eq_iff x y,
  str_eq_iff y x,
)

id_of-append :
    (id : Option String) (xs ys zs : List String)
    → xs ≡ ys ++ zs
    → id_of id ++ xs ≡ (id_of id ++ ys) ++ zs
id_of-append none xs ys zs h = h
id_of-append (some s) xs ys zs h = ap (λ more. s ∷ more) h

ids-snoc : (rules : List Rule) (rule : Rule) → ids (rules ++ rule ∷ []) ≡ ids rules ++ id_of rule.id
ids-snoc [] rule = append-nil (id_of rule.id)
ids-snoc (first ∷ rules) rule =
    id_of-append first.id (ids (rules ++ rule ∷ [])) (ids rules) (id_of rule.id)
      (ids-snoc rules rule)

AreRead-cons :
    (v : Value) (slots : List Slot) (rule : Rule) (rules : List Rule)
    → AreRead (given v ∷ []) (rule ∷ [])
    → AreRead slots rules
    → AreRead (given v ∷ slots) (rule ∷ rules)
AreRead-cons (obj fs) slots rule rules h more = (h.0, more)
AreRead-cons undefined slots rule rules h more = absurd h
AreRead-cons Value.null slots rule rules h more = absurd h
AreRead-cons Value.callable slots rule rules h more = absurd h
AreRead-cons (bool b) slots rule rules h more = absurd h
AreRead-cons (num m) slots rule rules h more = absurd h
AreRead-cons (str t) slots rule rules h more = absurd h
AreRead-cons (arr xs) slots rule rules h more = absurd h

module _ (actions subjects roles : List String) where
  -- What holds of the rules that were kept.
  record Kept (seen : Seen) : Type 0 where
    all : All (IsRule actions subjects roles) seen.rules
    known : seen.ids ≡ ids seen.rules
    different : distinct seen.ids ≡ true

  keep_rule-done :
      (seen next : Seen) (rule : Rule) (path : List Place)
      → keep_rule seen (some rule) path ≡ done next
      → IsRule actions subjects roles rule
      → Kept seen
      → (next.rules ≡ seen.rules ++ rule ∷ []) × Kept next
  unfolding keep_rule
  keep_rule-done seen next rule path h is kept = elim (Option-cases rule.id) [
    | inl nameless ↦
        let same : record seen { rules = seen.rules ++ rule ∷ [] } ≡ next =
          ground (arith, h, nameless) in
        rw (← same) (
          refl,
          record {
            all = All-snoc (IsRule actions subjects roles) seen.rules rule kept.all is;
            known =
                kept.known
                ∙ sym (
                    ids-snoc seen.rules rule
                    ∙ ap (λ o. ids seen.rules ++ id_of o) nameless
                    ∙ append-nil (ids seen.rules));
            different = kept.different;
          },
        )
    | inr (id, named) ↦ elim (Bool-cases (includes seen.ids id)) [
      | inl seen_before ↦ absurd (ground (arith, h, named, seen_before))
      | inr fresh ↦
          let same : record { rules = seen.rules ++ rule ∷ []; ids = seen.ids ++ id ∷ [] } ≡ next =
            ground (arith, h, named, fresh) in
          rw (← same) (
            refl,
            record {
              all = All-snoc (IsRule actions subjects roles) seen.rules rule kept.all is;
              known =
                  ap (λ l. l ++ id ∷ []) kept.known
                  ∙ sym (ids-snoc seen.rules rule ∙ ap (λ o. ids seen.rules ++ id_of o) named);
              different = distinct-snoc seen.ids id kept.different fresh;
            },
          )
    ]
  ]

  -- One entry adds its rule.
  Adds : Seen → Seen → Slot → Type 0
  Adds seen next slot =
      (rule : Rule) × (next.rules ≡ seen.rules ++ rule ∷ [])
      × AreRead (slot ∷ []) (rule ∷ [])
      × Kept next

  add_rule-done :
      (seen next : Seen) (v : Value) (path : List Place)
      → add_rule actions subjects roles seen v path ≡ done next
      → Kept seen
      → Adds seen next (given v)
  unfolding add_rule check_rule Adds
  add_rule-done seen next (obj fs) path h kept =
      let (checked, e, last) =
        bind-done (settled (read_rule actions subjects roles fs path)) _ next h in
      let (rule, same, is, guarded) =
        read_rule-done actions subjects roles fs path checked
          (settled-quiet (read_rule actions subjects roles fs path) checked e) in
      let (kept_too, more) =
        keep_rule-done seen next rule path (ap (λ o. keep_rule seen o path) (sym same) ∙ last) is
          kept in
      (rule, kept_too, (guarded, tt), more)
  add_rule-done seen next undefined path h kept = absurd (ground arith)
  add_rule-done seen next Value.null path h kept = absurd (ground arith)
  add_rule-done seen next Value.callable path h kept = absurd (ground arith)
  add_rule-done seen next (bool b) path h kept = absurd (ground arith)
  add_rule-done seen next (num m) path h kept = absurd (ground arith)
  add_rule-done seen next (str t) path h kept = absurd (ground arith)
  add_rule-done seen next (arr xs) path h kept = absurd (ground arith)

  read_all-done :
      (path : List Place) (i : ℕ) (seen last : Seen) (slots : List Slot)
      → for_each (add_rule actions subjects roles) path i seen slots ≡ done last
      → Kept seen
      → Kept last × ((rules : List Rule) × (last.rules ≡ seen.rules ++ rules) × AreRead slots rules)
  unfolding for_each Adds
  read_all-done path i seen last [] h kept =
      let same : seen ≡ last = ground arith in
      rw (← same) (kept, ([], sym (append-nil seen.rules), tt))
  read_all-done path i seen last (throwing ∷ rest) h kept = absurd (ground arith)
  read_all-done path i seen last (given v ∷ rest) h kept =
      let (next, e, after) =
        bind-done (add_rule actions subjects roles seen v (nth path i)) _ last h in
      let (rule, same, is_read, kept_next) = add_rule-done seen next v (nth path i) e kept in
      let (kept_last, (rules, same_rules, are_read)) =
        read_all-done path (i + 1) next last rest after kept_next in
      (
        kept_last,
        (
          rule ∷ rules,
          same_rules ∙ ap (λ l. l ++ rules) same ∙ append_assoc seen.rules (rule ∷ []) rules,
          AreRead-cons v rest rule rules is_read are_read,
        ),
      )

  -- The rules of a policy.
  pub read_rules-done :
      (v : Value) (rules : List Rule)
      → read_rules actions subjects roles v ≡ done rules
      → (xs : Items) × (v ≡ arr xs)
        × AreRead (items xs) rules
        × All (IsRule actions subjects roles) rules
        × (distinct (ids rules) ≡ true)
  unfolding read_rules distinct
  read_rules-done (arr xs) rules h =
      let (seen, e, last) =
        bind-done
          (for_each (add_rule actions subjects roles) (key "rules" ∷ []) 0
            (record { rules = []; ids = [] }) (items xs))
          _ rules h in
      let (kept, (more, same, are_read)) =
        read_all-done (key "rules" ∷ []) 0 (record { rules = []; ids = [] }) seen (items xs) e
          (record { all = tt; known = refl; different = refl }) in
      let is : seen.rules ≡ rules = ground (arith, last) in
      let known : distinct (ids seen.rules) ≡ true = rw (← kept.known) kept.different in
      rw (← is) (xs, refl, rw same are_read, kept.all, known)
  read_rules-done undefined rules h = absurd (ground arith)
  read_rules-done Value.null rules h = absurd (ground arith)
  read_rules-done Value.callable rules h = absurd (ground arith)
  read_rules-done (bool b) rules h = absurd (ground arith)
  read_rules-done (num m) rules h = absurd (ground arith)
  read_rules-done (str t) rules h = absurd (ground arith)
  read_rules-done (obj fs) rules h = absurd (ground arith)
