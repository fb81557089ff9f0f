-- ===== src/Tests/OnBytes.antt =====
-- The encodings of integers, on a negative `int` and on bytes in the middle of an array.
use cakeml.Prelude.{ℕ, ◌-◌, ◌^◌, ◌%◌, ◌≡◌, refl, arith, some, List, [], ◌∷◌}
use cakeml.Machine.Word.{IsByte, u32}
use cakeml.Machine.Run.{ok}
use cakeml.Machine.Buffer.{call}
use cakeml.Marshal.{int_to_byte2, int_to_byte8, byte2_to_int, byte8_to_int, w22n, w82n, join8}
use cakeml.Marshal.RoundTrip.{
  IsWrite, byte8_to_int-int_to_byte8, byte2_to_int-int_to_byte2, byte8_to_int-w82n,
  byte2_to_int-w22n,
}

abbrev no_world : ℕ
no_world = 0

abbrev ten : List ℕ
ten = 1 ∷ 2 ∷ 3 ∷ 4 ∷ 5 ∷ 6 ∷ 7 ∷ 8 ∷ 9 ∷ 10 ∷ []

abbrev all_ones : List ℕ
all_ones = 255 ∷ 255 ∷ 255 ∷ 255 ∷ 255 ∷ 255 ∷ 255 ∷ 254 ∷ []

byte8_to_int-int_to_byte8_example :
    (out : List ℕ) × (int_to_byte8 (2 ^ 32 - 5) 1 (call ten no_world) ≡ ok tt (call out no_world))
    × (byte8_to_int out 1 ≡ some (2 ^ 32 - 5))
    × IsWrite 1 8 ten out
byte8_to_int-int_to_byte8_example =
    byte8_to_int-int_to_byte8 {W = ℕ} (2 ^ 32 - 5) 1 ten no_world (omega arith) (omega arith)

byte2_to_int-int_to_byte2_example :
    (out : List ℕ) × (int_to_byte2 70000 1 (call ten no_world) ≡ ok tt (call out no_world))
    × (byte2_to_int out 1 ≡ some (70000 % 2 ^ 16))
    × IsWrite 1 2 ten out
byte2_to_int-int_to_byte2_example =
    byte2_to_int-int_to_byte2 {W = ℕ} 70000 1 ten no_world (omega arith) (omega arith)

all_ones_number : w82n all_ones ≡ some (2 ^ 64 - 2)
unfolding w82n
all_ones_number = refl

byte8_to_int-w82n_example : byte8_to_int all_ones 0 ≡ some (u32 (2 ^ 64 - 2))
byte8_to_int-w82n_example =
    byte8_to_int-w82n all_ones
      (let b : IsByte 255 = omega arith in (b, (b, (b, (b, (b, (b, (b, (omega arith, tt)))))))))
      (2 ^ 64 - 2) all_ones_number

two_number : w22n (3 ∷ 232 ∷ []) ≡ some 1000
unfolding w22n
two_number = refl

two_bytes_read : byte2_to_int (3 ∷ 232 ∷ []) 0 ≡ some 1000
two_bytes_read = byte2_to_int-w22n (3 ∷ 232 ∷ []) (omega arith, (omega arith, tt)) 1000 two_number

-- The C reads the same bytes as -2, by its own shifts.
minus_two : byte8_to_int all_ones 0 ≡ some (2 ^ 32 - 2)
unfolding byte8_to_int join8
minus_two = refl
