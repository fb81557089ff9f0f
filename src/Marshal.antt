-- ===== src/Marshal.antt =====
-- Integers as bytes, the most significant first: `int_to_byte2`, `byte2_to_int`, `int_to_byte8` and
-- `byte8_to_int` of basis/basis_ffi.c, which its copies for Pancake and ag32 repeat, and the
-- functions of basis/MarshallingScript.sml at the other end of a call. A pointer `&a[k]` is the
-- array with the index k.
pub mod Words
pub mod Codes
pub mod RoundTrip
use cakeml.Prelude.{
  ℕ, zero, suc, ◌+◌, ◌*◌, ◌/◌, ◌%◌, ◌^◌, Option, none, some, List, [], ◌∷◌, get_elem?, bit_and,
  bit_or,
}
use cakeml.Machine.Word.{u8, u32, sign_extend, shr32, shr64, shl32, shl64}
use cakeml.Machine.Run.{M, ◌>>◌}
use cakeml.Machine.Read.{◌>>=◌}
use cakeml.Machine.Buffer.{Call, store}

module _ {W : Type 0} where
  unfoldable pub int_to_byte2 : ℕ → ℕ → M (Call W) (Unit {0})
  int_to_byte2 i b = do store b (u8 (bit_and (shr32 i 8) 0xFF)); store (b + 1) (u8 (bit_and i 0xFF))

  unfoldable pub int_to_byte8 : ℕ → ℕ → M (Call W) (Unit {0})
  int_to_byte8 i b = do
    store b (u8 (bit_and (shr64 (sign_extend i) 56) 0xFF))
    store (b + 1) (u8 (bit_and (shr64 (sign_extend i) 48) 0xFF))
    store (b + 2) (u8 (bit_and (shr64 (sign_extend i) 40) 0xFF))
    store (b + 3) (u8 (bit_and (shr64 (sign_extend i) 32) 0xFF))
    store (b + 4) (u8 (bit_and (shr64 (sign_extend i) 24) 0xFF))
    store (b + 5) (u8 (bit_and (shr64 (sign_extend i) 16) 0xFF))
    store (b + 6) (u8 (bit_and (shr64 (sign_extend i) 8) 0xFF))
    store (b + 7) (u8 (bit_and (sign_extend i) 0xFF))

-- The value from the bytes, once read.
unfoldable pub join2 : ℕ → ℕ → ℕ
join2 b0 b1 = bit_or (shl32 b0 8) b1

unfoldable pub join8 : (b0 b1 b2 b3 b4 b5 b6 b7 : ℕ) → ℕ
join8 b0 b1 b2 b3 b4 b5 b6 b7 = u32 (
    bit_or
      (bit_or
        (bit_or
          (bit_or (bit_or (bit_or (bit_or (shl64 b0 56) (shl64 b1 48)) (shl64 b2 40)) (shl64 b3 32))
            (sign_extend (shl32 b4 24)))
          (sign_extend (shl32 b5 16)))
        (sign_extend (shl32 b6 8)))
      b7)

unfoldable pub byte2_to_int : List ℕ → ℕ → Option ℕ
byte2_to_int b at = do b0 ← get_elem? b at; b1 ← get_elem? b (at + 1); some (join2 b0 b1)

unfoldable pub byte8_to_int : List ℕ → ℕ → Option ℕ
byte8_to_int b at = do
  b0 ← get_elem? b at
  b1 ← get_elem? b (at + 1)
  b2 ← get_elem? b (at + 2)
  b3 ← get_elem? b (at + 3)
  b4 ← get_elem? b (at + 4)
  b5 ← get_elem? b (at + 5)
  b6 ← get_elem? b (at + 6)
  b7 ← get_elem? b (at + 7)
  some (join8 b0 b1 b2 b3 b4 b5 b6 b7)

-- `n2w` makes a byte of a number by its remainder.
unfoldable pub n2w2 : ℕ → List ℕ
n2w2 i = u8 (i / 256) ∷ u8 i ∷ []

unfoldable pub n2w8 : ℕ → List ℕ
n2w8 i =
    u8 (i / 256 ^ 7)
    ∷ u8 (i / 256 ^ 6)
    ∷ u8 (i / 256 ^ 5)
    ∷ u8 (i / 256 ^ 4)
    ∷ u8 (i / 256 ^ 3)
    ∷ u8 (i / 256 ^ 2)
    ∷ u8 (i / 256)
    ∷ u8 i
    ∷ []

unfoldable pub w22n : List ℕ → Option ℕ
w22n (b1 ∷ b0 ∷ []) = some (b1 * 256 + b0)
w22n _ = none

unfoldable pub w82n : List ℕ → Option ℕ
w82n (b7 ∷ b6 ∷ b5 ∷ b4 ∷ b3 ∷ b2 ∷ b1 ∷ b0 ∷ []) =
    some
      (256 * (256 * (256 * (256 * (256 * (256 * (256 * b7 + b6) + b5) + b4) + b3) + b2) + b1) + b0)
w82n _ = none
