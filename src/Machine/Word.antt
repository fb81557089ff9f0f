-- ===== src/Machine/Word.antt =====
-- Integer conversions, shifts and signs of C on x86-64, each value held as its bit pattern:
-- `int` as a number below 2 ^ 32, `long` and `long long` as numbers below 2 ^ 64. Shifts into the
-- sign bit and conversions that do not fit wrap, as GCC defines them.
use cakeml.Prelude.{ℕ, ◌+◌, ◌-◌, ◌*◌, ◌/◌, ◌%◌, ◌^◌, ◌<◌, ◌≡◌, Bool, All, List, bit_and}
use cakeml.Prelude.{leb, ltb, ◌&&◌, Option, none, some, if◌then◌else◌}
use cakeml.Prelude.Int.{ℤ, pos, negsuc, pos_part, neg_part}
use cakeml.Prelude.Bits.{bit_and_ones}

abbrev pub IsByte : ℕ → Type 0
IsByte x = x < 256

abbrev pub IsBytes : List ℕ → Type 0
IsBytes xs = All IsByte xs

-- The conversions to `unsigned char` (also by way of `char`), to `int` and to 64 bits.
abbrev pub u8 : ℕ → ℕ
u8 x = x % 256

abbrev pub u32 : ℕ → ℕ
u32 x = x % 2 ^ 32

abbrev pub u64 : ℕ → ℕ
u64 x = x % 2 ^ 64

-- Whether an `int` or a `long` is negative.
abbrev pub neg32 : ℕ → Bool
neg32 x = leb (2 ^ 31) x

abbrev pub neg64 : ℕ → Bool
neg64 x = leb (2 ^ 63) x

-- `(long long) i` of an `int`.
abbrev pub sign_extend : ℕ → ℕ
sign_extend x = if neg32 x then x + (2 ^ 64 - 2 ^ 32) else x

-- `x >> k` of an `int` and of a `long long`, the sign shifted in, for k from 0 to the width.
abbrev pub shr32 : ℕ → ℕ → ℕ
shr32 x k = if neg32 x then x / 2 ^ k + (2 ^ 32 - 2 ^ (32 - k)) else x / 2 ^ k

abbrev pub shr64 : ℕ → ℕ → ℕ
shr64 x k = if neg64 x then x / 2 ^ k + (2 ^ 64 - 2 ^ (64 - k)) else x / 2 ^ k

-- `x << k`.
abbrev pub shl32 : ℕ → ℕ → ℕ
shl32 x k = u32 (x * 2 ^ k)

abbrev pub shl64 : ℕ → ℕ → ℕ
shl64 x k = u64 (x * 2 ^ k)

-- The integers that the patterns stand for.
abbrev pub signed32 : ℕ → ℤ
signed32 x = if neg32 x then negsuc (2 ^ 32 - x - 1) else pos x

abbrev pub signed64 : ℕ → ℤ
signed64 x = if neg64 x then negsuc (2 ^ 64 - x - 1) else pos x

-- -1 as an `int` and as a `long`.
abbrev pub minus_one32 : ℕ
minus_one32 = 2 ^ 32 - 1

abbrev pub minus_one64 : ℕ
minus_one64 = 2 ^ 64 - 1

pub bit_and_byte : (x : ℕ) → bit_and x 0xFF ≡ x % 256
bit_and_byte x = bit_and_ones 8 x

-- An integer as a `long`, or a value of a `double` converted to one: `none` where it is out of range,
-- which C leaves undefined.
abbrev pub as_long : ℤ → Option ℤ
as_long z = if ltb (pos_part z) (2 ^ 63) && leb (neg_part z) (2 ^ 63) then some z else none

-- A number from 0 on as an `int`.
abbrev pub as_int : ℕ → Option ℕ
as_int n = if ltb n (2 ^ 31) then some n else none
