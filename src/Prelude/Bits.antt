-- ===== src/Prelude/Bits.antt =====
-- `&` with a mask of low bits, `|` of disjoint fields, and `|` modulo a power of two, at every width.
use Prim.Native.Nat.{ℕ, zero, suc, ◌+◌, ◌-◌, ◌*◌, ◌/◌, ◌%◌, ◌^◌, ◌≤◌, ◌<◌, min, max}
use Prim.Native.Nat.{bit_and, bit_or, digits, bit_and-bitwise, bit_or-bitwise}
use mathlib.Core.Path.{◌≡◌, refl, ap, ◌∙◌}
use native.Mathlib.Nat.{
  pow-suc, one-le-pow, mod-lt, mod-eq_of_lt, div-add-mod', mul-add-mod_self_right,
}
use native.Mathlib.Omega.{arith}

-- More fuel than the number needs makes no difference.
digits-zero : (z : ℕ → ℕ) (f : ℕ → ℕ → ℕ) (fuel b : ℕ) → digits z f fuel 0 b ≡ z b
digits-zero z f zero b = refl
digits-zero z f (suc fuel) b = refl

digits_fuels :
    (z : ℕ → ℕ) (f : ℕ → ℕ → ℕ) (n m a b : ℕ) → a ≤ n × a ≤ m → digits z f n a b ≡ digits z f m a b
digits_fuels z f n m zero b h = rw (digits-zero z f n b, digits-zero z f m b)
digits_fuels z f zero m (suc a) b h = absurd (omega arith)
digits_fuels z f (suc n) zero (suc a) b h = absurd (omega arith)
digits_fuels z f (suc n) (suc m) (suc a) b h =
    rw (digits_fuels z f n m (suc a / 2) (b / 2) (omega arith))

halves_fuel :
    (z : ℕ → ℕ) (f : ℕ → ℕ → ℕ) (a b : ℕ)
    → digits z f a (suc a / 2) b ≡ digits z f (suc a / 2) (suc a / 2) b
halves_fuel z f a b = digits_fuels z f a (suc a / 2) (suc a / 2) b (omega arith)

-- The lowest digit, and the rest.
bit_or_digit : (a b : ℕ) → bit_or a b ≡ bit_or (a / 2) (b / 2) * 2 + max (a % 2) (b % 2)
bit_or_digit zero b = omega (arith, bit_or-bitwise 0 b, bit_or-bitwise 0 (b / 2))
bit_or_digit (suc a) b = omega (
  arith,
  bit_or-bitwise (suc a) b,
  bit_or-bitwise (suc a / 2) (b / 2),
  halves_fuel (λ y. y) max a (b / 2),
)

bit_and_digit : (a b : ℕ) → bit_and a b ≡ bit_and (a / 2) (b / 2) * 2 + min (a % 2) (b % 2)
bit_and_digit zero b = omega (arith, bit_and-bitwise 0 b, bit_and-bitwise 0 (b / 2))
bit_and_digit (suc a) b = omega (
  arith,
  bit_and-bitwise (suc a) b,
  bit_and-bitwise (suc a / 2) (b / 2),
  halves_fuel (λ y. 0) min a (b / 2),
)

bit_and-zero : (n a : ℕ) → a ≤ n → bit_and a 0 ≡ 0
bit_and-zero n zero h = refl
bit_and-zero zero (suc a) h = absurd (omega arith)
bit_and-zero (suc n) (suc a) h =
    omega (arith, bit_and_digit (suc a) 0, bit_and-zero n (suc a / 2) (omega arith))

-- The remainder by `2 * p` from the lowest digit and the remainder of the rest by `p`.
mod_double : (p c : ℕ) → 0 < p → c % (2 * p) ≡ c / 2 % p * 2 + c % 2
mod_double p c h =
    let q = c / 2 / p in
    let r = c / 2 % p * 2 + c % 2 in
    let small : r < 2 * p = omega (arith, mod-lt (c / 2) h) in
    let whole : c ≡ q * (2 * p) + r = omega (arith, div-add-mod' (c / 2) p) in
    let cut : (q * (2 * p) + r) % (2 * p) ≡ r =
      rw (mul-add-mod_self_right q (2 * p) r) (mod-eq_of_lt small) in
    ap (λ (t : ℕ). t % (2 * p)) whole ∙ cut

mod-pow-suc : (k c : ℕ) → c % 2 ^ suc k ≡ c / 2 % 2 ^ k * 2 + c % 2
mod-pow-suc k c =
    let double : 2 ^ suc k ≡ 2 * 2 ^ k = omega (arith, pow-suc 2 k) in
    rw double (mod_double (2 ^ k) c (one-le-pow k 2 (omega arith)))

-- A mask of `k` ones keeps the remainder by `2 ^ k`.
pub bit_and_ones : (k a : ℕ) → bit_and a (2 ^ k - 1) ≡ a % 2 ^ k
bit_and_ones zero a = omega (arith, bit_and-zero a a (omega arith))
bit_and_ones (suc k) a = ground (
  arith,
  pow-suc 2 k,
  one-le-pow k 2,
  bit_and_digit a (2 ^ suc k - 1),
  bit_and_ones k (a / 2),
  mod-pow-suc k a,
)

-- `|` works digit by digit, so it commutes with cutting to `k` bits.
pub bit_or-mod : (k a b : ℕ) → bit_or a b % 2 ^ k ≡ bit_or (a % 2 ^ k) (b % 2 ^ k)
bit_or-mod zero a b = ground (arith)
bit_or-mod (suc k) a b = ground (
  arith,
  mod-pow-suc k (bit_or a b),
  mod-pow-suc k a,
  mod-pow-suc k b,
  bit_or_digit a b,
  bit_or_digit (a % 2 ^ suc k) (b % 2 ^ suc k),
  bit_or-mod k (a / 2) (b / 2),
)

bit_or-zero : (n a : ℕ) → a ≤ n → bit_or a 0 ≡ a
bit_or-zero n zero h = refl
bit_or-zero zero (suc a) h = absurd (omega arith)
bit_or-zero (suc n) (suc a) h =
    omega (arith, bit_or_digit (suc a) 0, bit_or-zero n (suc a / 2) (omega arith))

-- `|` of a multiple of `2 ^ k` and a number below it is their sum.
pub bit_or_disjoint : (k q r : ℕ) → r < 2 ^ k → bit_or (q * 2 ^ k) r ≡ q * 2 ^ k + r
bit_or_disjoint zero q r h = ground (arith, bit_or-zero q q)
bit_or_disjoint (suc k) q r h = ground (
  arith,
  bit_or_digit (q * 2 ^ suc k) r,
  ap (λ (t : ℕ). q * t) (pow-suc 2 k),
  bit_or_disjoint k q (r / 2),
)
