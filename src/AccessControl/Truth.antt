-- ===== src/AccessControl/Truth.antt =====
-- packages/access-control/src/internal/truth.ts: three-valued (Kleene) logic.
pub mod Laws
use first_principles.Base.{◌≡◌, ◌⊎◌, Bool, true, false, List, [], ◌∷◌, if◌then◌else◌}

pub data Ternary : Type 0 where
  is_true is_false unknown : Ternary

abbrev pub from_boolean : Bool → Ternary
from_boolean b = if b then is_true else is_false

-- The loop of `all`; `saw` is `sawUnknown`.
unfoldable pub all_from : Bool → List Ternary → Ternary
all_from saw [] = if saw then unknown else is_true
all_from saw (is_false ∷ operands) = is_false
all_from saw (unknown ∷ operands) = all_from true operands
all_from saw (is_true ∷ operands) = all_from saw operands

unfoldable pub all : List Ternary → Ternary
unfolding all_from
all operands = all_from false operands

unfoldable pub any_from : Bool → List Ternary → Ternary
any_from saw [] = if saw then unknown else is_false
any_from saw (is_true ∷ operands) = is_true
any_from saw (unknown ∷ operands) = any_from true operands
any_from saw (is_false ∷ operands) = any_from saw operands

unfoldable pub any : List Ternary → Ternary
unfolding any_from
any operands = any_from false operands

unfoldable pub negate : Ternary → Ternary
negate is_true = is_false
negate is_false = is_true
negate unknown = unknown

-- The information order: `unknown` may become anything, a definite answer stays.
abbrev pub Below : Ternary → Ternary → Type 0
Below a b = (a ≡ unknown) ⊎ (a ≡ b)

abbrev pub AllBelow : List Ternary → List Ternary → Type 0
AllBelow [] [] = Unit
AllBelow [] (_ ∷ _) = ⊥
AllBelow (_ ∷ _) [] = ⊥
AllBelow (a ∷ as') (b ∷ bs) = Below a b × AllBelow as' bs
