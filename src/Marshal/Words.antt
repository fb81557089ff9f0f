-- ===== src/Marshal/Words.antt =====
-- The bytes that the shifts and masks of the C make, and the numbers that its shifts and `|` join.
use cakeml.Prelude.{
  ℕ, [], ◌∷◌, ◌+◌, ◌*◌, ◌/◌, ◌%◌, ◌^◌, ◌<◌, ◌≡◌, ap, ap₂, sym, ◌∙◌, arith, bit_and, bit_or,
}
use cakeml.Prelude.Bits.{bit_or-mod, bit_or_disjoint}
use cakeml.Machine.Word.{IsByte, u8, u32, sign_extend, shr32, shr64, shl32, bit_and_byte}
use cakeml.Marshal.{n2w8, join2, join8}

pub byte_of_int : (i : ℕ) → i < 2 ^ 32 → u8 (bit_and (shr32 i 8) 0xFF) ≡ i / 256 % 256
byte_of_int i h = ground (arith, bit_and_byte (shr32 i 8))

-- The byte at bit 8 * k of a sign-extended `int`.
pub high_byte :
    (x : ℕ)
    → x < 2 ^ 64
    → (u8 (bit_and (shr64 x 56) 0xFF) ≡ x / 256 ^ 7 % 256)
      × (u8 (bit_and (shr64 x 48) 0xFF) ≡ x / 256 ^ 6 % 256)
      × (u8 (bit_and (shr64 x 40) 0xFF) ≡ x / 256 ^ 5 % 256)
      × (u8 (bit_and (shr64 x 32) 0xFF) ≡ x / 256 ^ 4 % 256)
      × (u8 (bit_and (shr64 x 24) 0xFF) ≡ x / 256 ^ 3 % 256)
      × (u8 (bit_and (shr64 x 16) 0xFF) ≡ x / 256 ^ 2 % 256)
      × (u8 (bit_and (shr64 x 8) 0xFF) ≡ x / 256 % 256)
      × (u8 (bit_and x 0xFF) ≡ x % 256)
high_byte x h = (
  ground (arith, bit_and_byte (shr64 x 56)),
  ground (arith, bit_and_byte (shr64 x 48)),
  ground (arith, bit_and_byte (shr64 x 40)),
  ground (arith, bit_and_byte (shr64 x 32)),
  ground (arith, bit_and_byte (shr64 x 24)),
  ground (arith, bit_and_byte (shr64 x 16)),
  ground (arith, bit_and_byte (shr64 x 8)),
  ground (arith, bit_and_byte x),
)

-- All eight at once, in the order in which they are written.
pub bytes_of_int8 :
    (x : ℕ)
    → x < 2 ^ 64
    → u8 (bit_and (shr64 x 56) 0xFF)
        ∷ u8 (bit_and (shr64 x 48) 0xFF)
        ∷ u8 (bit_and (shr64 x 40) 0xFF)
        ∷ u8 (bit_and (shr64 x 32) 0xFF)
        ∷ u8 (bit_and (shr64 x 24) 0xFF)
        ∷ u8 (bit_and (shr64 x 16) 0xFF)
        ∷ u8 (bit_and (shr64 x 8) 0xFF)
        ∷ u8 (bit_and x 0xFF)
        ∷ []
      ≡ n2w8 x
unfolding n2w8
bytes_of_int8 x h = let e = high_byte x h in rw (e.0, e.1, e.2, e.3, e.4, e.5, e.6, e.7)

pub join2_lem : (b0 b1 : ℕ) → IsByte b0 → IsByte b1 → join2 b0 b1 ≡ b0 * 256 + b1
unfolding join2
join2_lem b0 b1 h0 h1 = ground (arith, bit_or_disjoint 8 b0 b1)

or32 : {p q : ℕ} (x y : ℕ) → u32 x ≡ p → u32 y ≡ q → u32 (bit_or x y) ≡ bit_or p q
or32 x y hx hy = bit_or-mod 32 x y ∙ ap₂ bit_or hx hy

-- A field of an `int` whose shifted value may reach the sign bit.
int_field : (b k : ℕ) → u32 (sign_extend (shl32 b k)) ≡ u32 (b * 2 ^ k)
int_field b k = ground arith

or_zeros : (x y : ℕ) → u32 x ≡ 0 → u32 y ≡ 0 → u32 (bit_or x y) ≡ 0
or_zeros x y hx hy = or32 x y hx hy

-- `|` of a multiple of 2 ^ k and a field below it.
or_field : (k q : ℕ) {n : ℕ} (r : ℕ) → n ≡ q * 2 ^ k → r < 2 ^ k → bit_or n r ≡ n + r
or_field k q {n} r e h =
    ap (λ (t : ℕ). bit_or t r) e ∙ bit_or_disjoint k q r h ∙ ap (λ (t : ℕ). t + r) (sym e)

join_low :
    (b4 b5 b6 b7 : ℕ)
    → IsByte b4
    → IsByte b5
    → IsByte b6
    → IsByte b7
    → bit_or (bit_or (bit_or (bit_or 0 (b4 * 2 ^ 24)) (b5 * 2 ^ 16)) (b6 * 2 ^ 8)) b7
      ≡ b4 * 2 ^ 24 + b5 * 2 ^ 16 + b6 * 2 ^ 8 + b7
join_low b4 b5 b6 b7 h4 h5 h6 h7 =
    rw (or_field 32 0 {n = 0} (b4 * 2 ^ 24) (omega arith) (omega arith)) (
      rw (or_field 24 b4 {n = 0 + b4 * 2 ^ 24} (b5 * 2 ^ 16) (omega arith) (omega arith)) (
        rw
          (or_field 16 (b4 * 256 + b5) {n = 0 + b4 * 2 ^ 24 + b5 * 2 ^ 16} (b6 * 2 ^ 8)
            (omega arith) (omega arith))
          (or_field 8 (b4 * 65536 + b5 * 256 + b6) {n = 0 + b4 * 2 ^ 24 + b5 * 2 ^ 16 + b6 * 2 ^ 8}
              b7 (omega arith) (omega arith)
            ∙ omega arith)))

-- Cutting to 32 bits drops what is shifted above them, signs included.
pub join8_lem :
    (b0 b1 b2 b3 b4 b5 b6 b7 : ℕ)
    → IsByte b4
    → IsByte b5
    → IsByte b6
    → IsByte b7
    → join8 b0 b1 b2 b3 b4 b5 b6 b7 ≡ b4 * 2 ^ 24 + b5 * 2 ^ 16 + b6 * 2 ^ 8 + b7
unfolding join8
join8_lem b0 b1 b2 b3 b4 b5 b6 b7 h4 h5 h6 h7 =
    or32 _ b7
      (or32 _ _
        (or32 _ _
          (or32 _ _
            (or_zeros _ _ (or_zeros _ _ (or_zeros _ _ (omega arith) (omega arith)) (omega arith))
              (omega arith))
            (int_field b4 24 ∙ omega arith))
          (int_field b5 16 ∙ omega arith))
        (int_field b6 8 ∙ omega arith))
      (omega arith)
    ∙ join_low b4 b5 b6 b7 h4 h5 h6 h7
