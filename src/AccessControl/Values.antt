-- ===== src/AccessControl/Values.antt =====
-- The JavaScript values that the engine reads attributes and conditions from (`unknown` in
-- packages/access-control/src/internal/resolve.ts and evaluate.ts).
-- A finite number is given in units of 2^-1074, of which every finite double is a whole multiple,
-- so `===`, `<` and `<=` are exact. `callable` stands for functions, symbols and bigints. An own
-- property may be an accessor that throws; one that returns is given by the value it returns.
pub mod Order
use first_principles.Base.{
  ◌≡◌, ℕ, zero, suc, ◌+◌, ◌*◌, ◌-◌, ◌^◌, String, code, Bool, true, false, ◌&&◌, Option, none, some,
  List, [], ◌∷◌, if◌then◌else◌, str_eq, lookup, length, leb, ◌==◌,
}
use first_principles.Base.Int.{ℤ, pos}

pub data Number : Type 0 where
  nan pos_infinity neg_infinity : Number
  finite : ℤ → Number

mutual
  pub data Value : Type 0 where
    undefined null callable : Value
    bool : Bool → Value
    num : Number → Value
    str : String → Value
    arr : Items → Value
    obj : Fields → Value

  pub data Slot : Type 0 where
    given : Value → Slot
    throwing : Slot

  pub data Items : Type 0 where
    nil : Items
    cons : Slot → Items → Items

  pub data Fields : Type 0 where
    end : Fields
    field : String → Slot → Fields → Fields

-- How a computation ends: with a value, or with an exception.
pub data Completion {ℓ} (A : Type ℓ) : Type ℓ where
  normal : A → Completion A
  throw : Completion A

infixl 5 ◌>>=◌
abbrev pub ◌>>=◌ {ℓ κ} :
    {A : Type ℓ} {B : Type κ} → Completion A → (A → Completion B) → Completion B
normal a >>= f = f a
throw >>= f = throw

abbrev pub get_slot : Slot → Completion Value
get_slot (given v) = normal v
get_slot throwing = throw

abbrev pub items : Items → List Slot
items nil = []
items (cons s r) = s ∷ items r

abbrev pub fields : Fields → List (String × Slot)
fields end = []
fields (field k s r) = (k, s) ∷ fields r

-- `typeof v === 'object' && v !== null`
abbrev pub is_object : Value → Bool
is_object (arr _) = true
is_object (obj _) = true
is_object _ = false

-- `Number.isFinite`
abbrev pub is_finite : Number → Bool
is_finite (finite _) = true
is_finite _ = false

-- The digits of an array index: decimal, with no leading zero.
digits : String → ℕ → Option ℕ
digits String.[] n = some n
digits (String.◌∷◌ c s) n =
    let rest = digits s (n * 10 + (code c - b'0')) in
    if leb b'0' (code c) && leb (code c) b'9' then rest else none

array_index : String → Option ℕ
unfolding digits
array_index String.[] = none
array_index (String.◌∷◌ c s) =
    if code c == b'0'
    then (elim s [ String.[] ↦ some 0 | String.◌∷◌ _ _ ↦ none ])
    else digits (String.◌∷◌ c s) 0

abbrev slot_at : List Slot → ℕ → Option Slot
slot_at [] i = none
slot_at (x ∷ xs) zero = some x
slot_at (x ∷ xs) (suc i) = slot_at xs i

array_own : List Slot → String → Option Slot
unfolding array_index
array_own xs key =
    if str_eq key "length"
    then some (given (num (finite (pos (length xs * 2 ^ 1074)))))
    else elim (array_index key) [ none ↦ none | some i ↦ slot_at xs i ]

-- The own property of an object or array, if `hasOwnProperty` says that there is one.
unfoldable pub own : Value → String → Option Slot
unfolding array_own
own (arr xs) key = array_own (items xs) key
own (obj fs) key = lookup key (fields fs)
own _ key = none
