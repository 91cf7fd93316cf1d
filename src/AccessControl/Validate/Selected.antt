-- ===== src/AccessControl/Validate/Selected.antt =====
-- The lists of names that pass: what is declared, and what a rule selects.
use first_principles.Base.{
  ◌≡◌, refl, ℕ, ◌+◌, String, Bool, true, false, some, List, [], ◌∷◌, ◌++◌, if◌then◌else◌, includes,
  All, All-snoc, arith,
}
use first_principles.AccessControl.Values.{
  Value, undefined, num, str, bool, arr, obj, Slot, given, throwing, nil, cons, items,
}
use first_principles.AccessControl.Roles.{add}
use first_principles.AccessControl.Policy.{Selector, wildcard, names, RoleList, listed}
use first_principles.AccessControl.Validate.Checks.{Place, Check, done, bind-done}
use first_principles.AccessControl.Validate.Conditions.{is_empty, nth}
use first_principles.AccessControl.Validate.Rules.{
  for_each, declare_name, read_name_list, select_name, select_all, read_selector, read_rule_roles,
}
use first_principles.AccessControl.Validate.Declared.{IsName, IsSelected, IsSelection, IsRoleList}

-- An invariant of what a loop over an array collects.
pub for_each-keeps {ℓ κ} :
    {S : Type ℓ} (P : S → Type κ) (visit : S → Value → List Place → Check S)
    (keeps : (s t : S) (v : Value) (path : List Place) → visit s v path ≡ done t → P s → P t)
    (path : List Place) (i : ℕ) (s t : S) (slots : List Slot)
    → for_each visit path i s slots ≡ done t
    → P s
    → P t
unfolding for_each
for_each-keeps P visit keeps path i s t [] h p = let same : s ≡ t = ground arith in rw (← same) p
for_each-keeps P visit keeps path i s t (throwing ∷ rest) h p = absurd (ground arith)
for_each-keeps P visit keeps path i s t (given v ∷ rest) h p =
    let (next, e, last) = bind-done (visit s v (nth path i)) _ t h in
    for_each-keeps P visit keeps path (i + 1) next t rest last (keeps s next v (nth path i) e p)

-- And of one that has at least one round.
for_each-reaches {ℓ κ} :
    {S : Type ℓ} (P : S → Type κ) (visit : S → Value → List Place → Check S) (s : S)
    (first : (t : S) (v : Value) (path : List Place) → visit s v path ≡ done t → P t)
    (keeps : (s t : S) (v : Value) (path : List Place) → visit s v path ≡ done t → P s → P t)
    (path : List Place) (i : ℕ) (t : S) (slot : Slot) (slots : List Slot)
    → for_each visit path i s (slot ∷ slots) ≡ done t
    → P t
unfolding for_each
for_each-reaches P visit s first keeps path i t throwing slots h = absurd (ground arith)
for_each-reaches P visit s first keeps path i t (given v) slots h =
    let (next, e, last) = bind-done (visit s v (nth path i)) _ t h in
    for_each-keeps P visit keeps path (i + 1) next t slots last (first next v (nth path i) e)

pub either {ℓ κ} :
    {A : Type ℓ} (P : A → Type κ) (b : Bool) (x y : A) → P x → P y → P (if b then x else y)
either P true x y p q = p
either P false x y p q = q

All-add : (P : String → Type 0) (xs : List String) (x : String) → All P xs → P x → All P (add xs x)
unfolding add
All-add P xs x h p = either (All P) (includes xs x) xs (xs ++ x ∷ []) h (All-snoc P xs x h p)

is_empty-add : (xs : List String) (x : String) → is_empty (add xs x) ≡ false
unfolding add
is_empty-add [] x = refl
is_empty-add (y ∷ xs) x = ground arith

-- One declared name.
declare_name-done :
    (declared next : List String) (v : Value) (path : List Place)
    → declare_name declared v path ≡ done next
    → (s : String) × IsName s × (next ≡ add declared s)
unfolding declare_name
declare_name-done declared next (str s) path h = (s, ground arith, ground arith)
declare_name-done declared next undefined path h = absurd (ground arith)
declare_name-done declared next Value.null path h = absurd (ground arith)
declare_name-done declared next Value.callable path h = absurd (ground arith)
declare_name-done declared next (bool b) path h = absurd (ground arith)
declare_name-done declared next (num m) path h = absurd (ground arith)
declare_name-done declared next (arr xs) path h = absurd (ground arith)
declare_name-done declared next (obj fs) path h = absurd (ground arith)

abbrev AreNames : List String → Type 0
AreNames declared = All IsName declared × (is_empty declared ≡ false)

declare_name-AreNames :
    (declared next : List String) (v : Value) (path : List Place)
    → declare_name declared v path ≡ done next
    → All IsName declared
    → AreNames next
declare_name-AreNames declared next v path h held =
    let (s, named, same) = declare_name-done declared next v path h in
    rw same (All-add IsName declared s held named, is_empty-add declared s)

pub read_name_list-done :
    (v : Value) (path : List Place) (declared : List String)
    → read_name_list v path ≡ done declared
    → AreNames declared
unfolding read_name_list
read_name_list-done (arr (cons s rest)) path declared h =
    for_each-reaches AreNames declare_name [] (λ t v p e. declare_name-AreNames [] t v p e tt)
      (λ s t v p e held. declare_name-AreNames s t v p e held.0) path 0 declared s (items rest) h
read_name_list-done (arr nil) path declared h = absurd (ground arith)
read_name_list-done undefined path declared h = absurd (ground arith)
read_name_list-done Value.null path declared h = absurd (ground arith)
read_name_list-done Value.callable path declared h = absurd (ground arith)
read_name_list-done (bool b) path declared h = absurd (ground arith)
read_name_list-done (num m) path declared h = absurd (ground arith)
read_name_list-done (str t) path declared h = absurd (ground arith)
read_name_list-done (obj fs) path declared h = absurd (ground arith)

module _ (declared : List String) where
  abbrev pub AreDeclared : List String → Type 0
  AreDeclared = All (λ name. includes declared name ≡ true)

  select_name-done :
      (selected next : List String) (v : Value) (path : List Place)
      → select_name declared selected v path ≡ done next
      → (s : String) × (includes declared s ≡ true) × (next ≡ add selected s)
  unfolding select_name
  select_name-done selected next (str s) path h = (s, ground arith, ground arith)
  select_name-done selected next undefined path h = absurd (ground arith)
  select_name-done selected next Value.null path h = absurd (ground arith)
  select_name-done selected next Value.callable path h = absurd (ground arith)
  select_name-done selected next (bool b) path h = absurd (ground arith)
  select_name-done selected next (num m) path h = absurd (ground arith)
  select_name-done selected next (arr xs) path h = absurd (ground arith)
  select_name-done selected next (obj fs) path h = absurd (ground arith)

  pub select_name-IsSelected :
      (selected next : List String) (v : Value) (path : List Place)
      → select_name declared selected v path ≡ done next
      → AreDeclared selected
      → IsSelected declared next
  select_name-IsSelected selected next v path h held =
      let (s, known, same) = select_name-done selected next v path h in
      rw same (
        All-add (λ name. includes declared name ≡ true) selected s held known,
        is_empty-add selected s,
      )

  select_all-IsSelected :
      (path : List Place) (s : Slot) (rest : List Slot) (selected : List String)
      → for_each (select_name declared) path 0 [] (s ∷ rest) ≡ done selected
      → IsSelected declared selected
  select_all-IsSelected path s rest selected h =
      for_each-reaches (IsSelected declared) (select_name declared) []
        (λ t v p e. select_name-IsSelected [] t v p e tt)
        (λ s t v p e held. select_name-IsSelected s t v p e held.0) path 0 selected s rest h

  pub read_selector-done :
      (path : List Place) (v : Value) (selector : Selector)
      → read_selector declared path v ≡ done (some selector)
      → IsSelection declared selector
  unfolding read_selector
  read_selector-done path (arr (cons s rest)) selector h =
      let (chosen, e, last) = bind-done (select_all declared path s rest) _ (some selector) h in
      let (selected, e', last') =
        bind-done (for_each (select_name declared) path 0 [] (items (cons s rest))) _ chosen e in
      let same : selector ≡ names selected = ground (arith, last, last') in
      rw same (select_all-IsSelected path s (items rest) selected e')
  read_selector-done path (str t) selector h =
      let same : selector ≡ wildcard = ground arith in rw same tt
  read_selector-done path (arr nil) selector h = absurd (ground arith)
  read_selector-done path undefined selector h = absurd (ground arith)
  read_selector-done path Value.null selector h = absurd (ground arith)
  read_selector-done path Value.callable selector h = absurd (ground arith)
  read_selector-done path (bool b) selector h = absurd (ground arith)
  read_selector-done path (num m) selector h = absurd (ground arith)
  read_selector-done path (obj fs) selector h = absurd (ground arith)

  pub read_rule_roles-done :
      (path : List Place) (v : Value) (roles : RoleList)
      → read_rule_roles declared path v ≡ done roles
      → IsRoleList declared roles
  unfolding read_rule_roles
  read_rule_roles-done path (arr (cons s rest)) roles h =
      let (chosen, e, last) = bind-done (select_all declared path s rest) _ roles h in
      let (selected, e', last') =
        bind-done (for_each (select_name declared) path 0 [] (items (cons s rest))) _ chosen e in
      let same : roles ≡ listed selected = ground (arith, last, last') in
      rw same (select_all-IsSelected path s (items rest) selected e')
  read_rule_roles-done path (arr nil) roles h = absurd (ground arith)
  read_rule_roles-done path undefined roles h = absurd (ground arith)
  read_rule_roles-done path Value.null roles h = absurd (ground arith)
  read_rule_roles-done path Value.callable roles h = absurd (ground arith)
  read_rule_roles-done path (bool b) roles h = absurd (ground arith)
  read_rule_roles-done path (num m) roles h = absurd (ground arith)
  read_rule_roles-done path (str t) roles h = absurd (ground arith)
  read_rule_roles-done path (obj fs) roles h = absurd (ground arith)
