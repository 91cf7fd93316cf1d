-- ===== src/AccessControl/Resolve/Context.antt =====
-- What a missing root does to a path.
use first_principles.Base.{◌≡◌, refl, ◌⊎◌, inl, false, String, List, [], ◌∷◌, arith}
use first_principles.AccessControl.Values.{Value, is_object}
use first_principles.AccessControl.Resolve.{
  unresolved, AttributeEnvironment, root_of, resolve_segments, resolve_path,
}

-- A root that one environment lacks (it is missing, null or no object) or has as the other has it.
abbrev pub RootWithin : Value → Value → Type 0
RootWithin a b = (is_object a ≡ false) ⊎ (a ≡ b)

-- The first environment supplies no more than the second.
pub record Within (a b : AttributeEnvironment) : Type 0 where
  pub principal : RootWithin a.principal b.principal
  pub resource : RootWithin a.resource b.resource
  pub env : RootWithin a.env b.env

resolve_segments-Within :
    (a b : AttributeEnvironment) (root : String) (rest : List String)
    → Within a b
    → (resolve_segments a root rest ≡ unresolved)
      ⊎ (resolve_segments a root rest ≡ resolve_segments b root rest)
unfolding resolve_segments root_of
resolve_segments-Within a b root [] h = inl refl
resolve_segments-Within a b root (segment ∷ rest) h = ground arith

-- A path reads from the smaller environment what it reads from the larger, or stays unresolved.
pub resolve_path-Within :
    (a b : AttributeEnvironment) (path : String)
    → Within a b
    → (resolve_path a path ≡ unresolved) ⊎ (resolve_path a path ≡ resolve_path b path)
unfolding resolve_path
resolve_path-Within a b path h = resolve_segments-Within a b _ _ h
