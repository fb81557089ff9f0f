-- ===== src/Machine/Strtoul.antt =====
-- `strtoul(s, &end, 10)` of the C library for a 64-bit `unsigned long`, on the characters of a string:
-- white space, a sign, then digits up to the first other character. A number that does not fit gives
-- the largest value, and a minus sign negates modulo 2 ^ 64.
use cakeml.Prelude.{
  ℕ, ◌+◌, ◌-◌, ◌*◌, ◌%◌, ◌^◌, ◌≤◌, ◌≡◌, refl, arith, Bool, ◌&&◌, ◌||◌, List, [], ◌∷◌, ◌==◌, ltb,
  leb, if◌then◌else◌,
}

abbrev pub ulong_max : ℕ
ulong_max = 2 ^ 64 - 1

abbrev is_space : ℕ → Bool
is_space c = (c == 32) || (leb 9 c && leb c 13)

abbrev is_digit : ℕ → Bool
is_digit c = leb b'0' c && leb c b'9'

-- The value, which does not stop growing: it is cut at the end.
digits_value : ℕ → List ℕ → ℕ
digits_value acc [] = acc
digits_value acc (c ∷ s) =
    let rest = digits_value (acc * 10 + (c - b'0')) s in if is_digit c then rest else acc

magnitude : List ℕ → ℕ
unfolding digits_value
magnitude s = let n = digits_value 0 s in if ltb ulong_max n then ulong_max else n

negated : List ℕ → ℕ
unfolding digits_value
negated s = let n = digits_value 0 s in if ltb ulong_max n then ulong_max else (2 ^ 64 - n) % 2 ^ 64

signed_value : List ℕ → ℕ
unfolding magnitude negated
signed_value [] = 0
signed_value (c ∷ s) =
    if c == b'-' then negated s else (if c == b'+' then magnitude s else magnitude (c ∷ s))

unfoldable pub strtoul : List ℕ → ℕ
unfolding signed_value
strtoul [] = 0
strtoul (c ∷ s) = let rest = strtoul s in if is_space c then rest else signed_value (c ∷ s)

-- The result is an `unsigned long`.
pub strtoul-le : (s : List ℕ) → strtoul s ≤ ulong_max
unfolding strtoul
strtoul-le [] = omega arith
strtoul-le (c ∷ s) = ground (arith, strtoul-le s)

strtoul_decimal : strtoul (b' ' ∷ b'2' ∷ b'0' ∷ b'4' ∷ b'8' ∷ b'M' ∷ []) ≡ 2048
unfolding strtoul
strtoul_decimal = refl

strtoul_minus : strtoul (b'-' ∷ b'1' ∷ []) ≡ ulong_max
unfolding strtoul
strtoul_minus = refl
