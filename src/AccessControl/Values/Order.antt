-- ===== src/AccessControl/Values/Order.antt =====
-- The comparisons `===`, `<` and `<=` on numbers, and `<` on strings.
use first_principles.Base.{
  ◌≡◌, ◌⊎◌, ℕ, ◌+◌, ◌-◌, ◌/◌, ◌%◌, String, code, Bool, true, false, ◌||◌, List, [], ◌∷◌, ◌++◌,
  if◌then◌else◌, ltb, ◌==◌, arith,
}
use first_principles.Base.Int.{ltb_ℤ, eqb_ℤ}
use first_principles.AccessControl.Values.{Number, nan, pos_infinity, neg_infinity, finite}

unfoldable pub number_eq : Number → Number → Bool
number_eq pos_infinity pos_infinity = true
number_eq neg_infinity neg_infinity = true
number_eq (finite a) (finite b) = eqb_ℤ a b
number_eq _ _ = false

unfoldable pub number_lt : Number → Number → Bool
number_lt nan _ = false
number_lt _ nan = false
number_lt pos_infinity _ = false
number_lt _ neg_infinity = false
number_lt neg_infinity _ = true
number_lt (finite a) pos_infinity = true
number_lt (finite a) (finite b) = ltb_ℤ a b

unfoldable pub number_le : Number → Number → Bool
unfolding number_lt number_eq
number_le a b = number_lt a b || number_eq a b

-- The UTF-16 code units of a character.
code_units : ℕ → List ℕ
code_units c =
    if ltb c 0x10000
    then c ∷ []
    else (0xd800 + (c - 0x10000) / 0x400) ∷ (0xdc00 + (c - 0x10000) % 0x400) ∷ []

utf16 : String → List ℕ
unfolding code_units
utf16 String.[] = []
utf16 (String.◌∷◌ c s) = code_units (code c) ++ utf16 s

units_lt : List ℕ → List ℕ → Bool
units_lt [] [] = false
units_lt [] (_ ∷ _) = true
units_lt (_ ∷ _) [] = false
units_lt (a ∷ xs) (b ∷ ys) = if a == b then units_lt xs ys else ltb a b

unfoldable pub string_lt : String → String → Bool
unfolding utf16 units_lt
string_lt a b = units_lt (utf16 a) (utf16 b)

-- Of two numbers that are not NaN exactly one is below the other, or they are equal.
pub number_trichotomy :
    (a b : Number)
    → (number_lt a b ≡ true)
      ⊎ (number_eq a b ≡ true)
      ⊎ (number_lt b a ≡ true)
      ⊎ (a ≡ nan)
      ⊎ (b ≡ nan)
unfolding number_lt number_eq
number_trichotomy a b = ground arith
