-- ===== src/AccessControl/Validate/Inherited.antt =====
-- The roles that pass: their names can be used, and they inherit from declared ones.
use first_principles.Base.Maps.{map_set}
use first_principles.Base.{◌≡◌, refl, ap, String, true, List, [], ◌∷◌, str_eq, includes, All, arith}
use first_principles.AccessControl.Values.{
  Value, undefined, num, str, bool, arr, obj, items, Fields,
}
use first_principles.AccessControl.Evaluate.{read_own}
use first_principles.AccessControl.Roles.{Inherits}
use first_principles.AccessControl.Validate.Checks.{
  Place, key, done, reading, bind-done, unless-done,
}
use first_principles.AccessControl.Validate.Conditions.{child, object_keys, forbidden_segments}
use first_principles.AccessControl.Validate.Rules.{select_name}
use first_principles.AccessControl.Validate.Declared.{IsSegment, IsRoleGraph, role_names}
use first_principles.AccessControl.Validate.Selected.{
  either, for_each-keeps, AreDeclared, select_name-IsSelected,
}
use first_principles.AccessControl.Validate.{
  declare_role, declare_key, declare_keys, read_parents, read_graph, read_roles,
}

-- A role that is declared, without parents so far.
abbrev IsBare : String × List String → Type 0
IsBare e = IsSegment e.0 × (e.1 ≡ [])

All-map_set :
    (graph : Inherits) (role : String)
    → IsSegment role
    → All IsBare graph
    → All IsBare (map_set graph role [])
unfolding map_set
All-map_set [] role h bare = ((h, refl), tt)
All-map_set ((other, parents) ∷ graph) role h bare =
    either (All IsBare) (str_eq other role) ((other, []) ∷ graph)
      ((other, parents) ∷ map_set graph role []) ((bare.0.0, refl), bare.1)
      (bare.0, All-map_set graph role h bare.1)

names-bare : (graph : Inherits) → All IsBare graph → All IsSegment (role_names graph)
names-bare [] h = tt
names-bare (e ∷ graph) h = (h.0.0, names-bare graph h.1)

bare-parents :
    (declared : List String) (graph : Inherits)
    → All IsBare graph
    → All (λ e. All (λ parent. includes declared parent ≡ true) e.1) graph
bare-parents declared [] h = tt
bare-parents declared (e ∷ graph) h = (rw h.0.1 tt, bare-parents declared graph h.1)

declare_role-done :
    (graph next : Inherits) (v : Value) (path : List Place)
    → declare_role graph v path ≡ done next
    → All IsBare graph
    → All IsBare next
unfolding declare_role
declare_role-done graph next (str s) path h bare =
    let (named, more) = unless-done (str_eq s "") path _ graph next _ h in
    let (fit, last) = unless-done (includes forbidden_segments s) path _ graph next _ more in
    let same : map_set graph s [] ≡ next = ground (arith, last) in
    rw (← same) (All-map_set graph s (named, fit) bare)
declare_role-done graph next undefined path h bare = absurd (ground arith)
declare_role-done graph next Value.null path h bare = absurd (ground arith)
declare_role-done graph next Value.callable path h bare = absurd (ground arith)
declare_role-done graph next (bool b) path h bare = absurd (ground arith)
declare_role-done graph next (num m) path h bare = absurd (ground arith)
declare_role-done graph next (arr xs) path h bare = absurd (ground arith)
declare_role-done graph next (obj fs) path h bare = absurd (ground arith)

declare_keys-done :
    (roles : List String) (graph last : Inherits)
    → declare_keys roles graph ≡ done last
    → All IsBare graph
    → All IsBare last
unfolding declare_keys declare_key
declare_keys-done [] graph last h bare = let same : graph ≡ last = ground arith in rw (← same) bare
declare_keys-done (role ∷ roles) graph last h bare =
    let (next, e, after) = bind-done (declare_key graph role) _ last h in
    let (named, more) = unless-done (str_eq role "") _ _ graph next _ e in
    let (fit, set) = unless-done (includes forbidden_segments role) _ _ graph next _ more in
    let same : map_set graph role [] ≡ next = ground (arith, set) in
    declare_keys-done roles next last after (rw (← same) (All-map_set graph role (named, fit) bare))

read_parents-done :
    (declared : List String) (v : Value) (path : List Place) (parents : List String)
    → read_parents declared v path ≡ done parents
    → AreDeclared declared parents
unfolding read_parents
read_parents-done declared (arr xs) path parents h =
    for_each-keeps (AreDeclared declared) (select_name declared)
      (λ s t v p e held. (select_name-IsSelected declared s t v p e held).0) path 0 [] parents
      (items xs) h tt
read_parents-done declared undefined path parents h = absurd (ground arith)
read_parents-done declared Value.null path parents h = absurd (ground arith)
read_parents-done declared Value.callable path parents h = absurd (ground arith)
read_parents-done declared (bool b) path parents h = absurd (ground arith)
read_parents-done declared (num m) path parents h = absurd (ground arith)
read_parents-done declared (str t) path parents h = absurd (ground arith)
read_parents-done declared (obj fs) path parents h = absurd (ground arith)

read_graph-done :
    (fs : Fields) (declared roles : List String) (graph : Inherits)
    → read_graph fs declared roles ≡ done graph
    → (role_names graph ≡ roles) × All (λ e. AreDeclared declared e.1) graph
unfolding read_graph
read_graph-done fs declared [] graph h =
    let same : [] ≡ graph = ground arith in rw (← same) (refl, tt)
read_graph-done fs declared (role ∷ roles) graph h =
    let (raw, _, h1) = bind-done (reading (read_own (obj fs) role)) _ graph h in
    let (parents, e, h2) =
      bind-done (read_parents declared raw (child (key "roles" ∷ []) role)) _ graph h1 in
    let (more, e', h3) = bind-done (read_graph fs declared roles) _ graph h2 in
    let (named, all) = read_graph-done fs declared roles more e' in
    let same : (role, parents) ∷ more ≡ graph = ground (arith, h3) in
    rw (← same) (
      ap (λ l. role ∷ l) named,
      (read_parents-done declared raw (child (key "roles" ∷ []) role) parents e, all),
    )

pub read_roles-done : (v : Value) (graph : Inherits) → read_roles v ≡ done graph → IsRoleGraph graph
unfolding read_roles
read_roles-done undefined graph h =
    let same : [] ≡ graph = ground arith in rw (← same) (record { usable = tt; parents = tt })
read_roles-done (arr xs) graph h =
    let bare =
      for_each-keeps (All IsBare) declare_role (λ s t v p e held. declare_role-done s t v p e held)
        (key "roles" ∷ []) 0 [] graph (items xs) h tt in
    record { usable = names-bare graph bare; parents = bare-parents (role_names graph) graph bare }
read_roles-done (obj fs) graph h =
    let (declared, e, last) = bind-done (declare_keys (object_keys fs) []) _ graph h in
    let bare = declare_keys-done (object_keys fs) [] declared e tt in
    let (named, all) = read_graph-done fs (role_names declared) (role_names declared) graph last in
    record { usable = rw named (names-bare declared bare); parents = rw named all }
read_roles-done Value.null graph h = absurd (ground arith)
read_roles-done Value.callable graph h = absurd (ground arith)
read_roles-done (bool b) graph h = absurd (ground arith)
read_roles-done (num m) graph h = absurd (ground arith)
read_roles-done (str t) graph h = absurd (ground arith)
