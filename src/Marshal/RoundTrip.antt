-- ===== src/Marshal/RoundTrip.antt =====
-- Encoding and decoding are inverse, and the decoders of the C read what those of
-- MarshallingScript.sml read.
use cakeml.Prelude.{
  ℕ, ◌+◌, ◌*◌, ◌%◌, ◌^◌, ◌≤◌, ◌<◌, ◌≡◌, ap, ◌∙◌, ◌⊎◌, arith, some, List, [], ◌∷◌, length, get_elem?,
}
use cakeml.Machine.Word.{IsBytes, u32, sign_extend}
use mathlib.Core.Option.{some-injective}
use cakeml.Machine.Run.{ok}
use cakeml.Machine.Buffer.{call, overwrite}
use cakeml.Machine.Buffer.Laws.{length-overwrite, get_elem?-overwrite_outside}
use cakeml.Marshal.{
  int_to_byte2, int_to_byte8, byte2_to_int, byte8_to_int, join8, n2w2, n2w8, w22n, w82n,
}
use cakeml.Marshal.Codes.{
  int_to_byte2_lem, int_to_byte8_lem, byte2_to_int-overwrite, byte8_to_int-overwrite,
}
use cakeml.Marshal.Words.{join2_lem, join8_lem}

-- `out` is `a` but for the `n` bytes from `b` on.
pub record IsWrite (b n : ℕ) (a out : List ℕ) : Type 0 where
  pub same_length : length out ≡ length a
  pub outside : (j : ℕ) → (j < b) ⊎ (b + n ≤ j) → get_elem? out j ≡ get_elem? a j

pub overwrite-IsWrite : (b : ℕ) (ys a : List ℕ) → IsWrite b (length ys) a (overwrite b ys a)
overwrite-IsWrite b ys a = record {
  same_length = length-overwrite b ys a;
  outside = λ j h. get_elem?-overwrite_outside b j ys a h;
}

-- Every `int`, negative ones too, is read back by `byte8_to_int` from where `int_to_byte8` put it in
-- an array that has eight bytes there; the array keeps its length and all its other bytes.
pub byte8_to_int-int_to_byte8 :
    {W : Type 0} (i b : ℕ) (a : List ℕ) (w : W)
    → i < 2 ^ 32
    → b + 8 ≤ length a
    → (out : List ℕ) × (int_to_byte8 i b (call a w) ≡ ok tt (call out w))
      × (byte8_to_int out b ≡ some i)
      × IsWrite b 8 a out
byte8_to_int-int_to_byte8 i b a w hi fits = (
  overwrite b (n2w8 (sign_extend i)) a,
  int_to_byte8_lem i b a w hi fits,
  unfold n2w8 in
      (byte8_to_int-overwrite b _ _ _ _ _ _ _ _ a (omega arith) (omega arith) (omega arith)
          (omega arith) fits
        ∙ ap some (ground arith)),
  unfold n2w8 in overwrite-IsWrite b (n2w8 (sign_extend i)) a,
)

-- For every `int`, `byte2_to_int` reads its remainder by 2 ^ 16 from where `int_to_byte2` put it in an
-- array that has two bytes there; the array keeps its length and all its other bytes.
pub byte2_to_int-int_to_byte2 :
    {W : Type 0} (i b : ℕ) (a : List ℕ) (w : W)
    → i < 2 ^ 32
    → b + 2 ≤ length a
    → (out : List ℕ) × (int_to_byte2 i b (call a w) ≡ ok tt (call out w))
      × (byte2_to_int out b ≡ some (i % 2 ^ 16))
      × IsWrite b 2 a out
byte2_to_int-int_to_byte2 i b a w hi fits = (
  overwrite b (n2w2 i) a,
  int_to_byte2_lem i b a w hi fits,
  unfold n2w2 in
      (byte2_to_int-overwrite b _ _ a (omega arith) (omega arith) fits ∙ ap some (omega arith)),
  unfold n2w2 in overwrite-IsWrite b (n2w2 i) a,
)

join8-u32 :
    (b7 b6 b5 b4 b3 b2 b1 b0 : ℕ)
    → IsBytes (b7 ∷ b6 ∷ b5 ∷ b4 ∷ b3 ∷ b2 ∷ b1 ∷ b0 ∷ [])
    → (n : ℕ)
    → 256 * (256 * (256 * (256 * (256 * (256 * (256 * b7 + b6) + b5) + b4) + b3) + b2) + b1) + b0
      ≡ n
    → some (join8 b7 b6 b5 b4 b3 b2 b1 b0) ≡ some (u32 n)
join8-u32 b7 b6 b5 b4 b3 b2 b1 b0 h n e = ap some (
    join8_lem b7 b6 b5 b4 b3 b2 b1 b0 (omega arith) (omega arith) (omega arith) (omega arith)
    ∙ omega arith)

-- On eight bytes `byte8_to_int` gives the low 32 bits of the number that the HOL model `w82n` reads.
pub byte8_to_int-w82n :
    (b : List ℕ) → IsBytes b → (n : ℕ) → w82n b ≡ some n → byte8_to_int b 0 ≡ some (u32 n)
unfolding w82n byte8_to_int
byte8_to_int-w82n (b7 ∷ b6 ∷ b5 ∷ b4 ∷ b3 ∷ b2 ∷ b1 ∷ b0 ∷ []) h n e =
    join8-u32 b7 b6 b5 b4 b3 b2 b1 b0 h n (some-injective _ _ e)
byte8_to_int-w82n b h n e = absurd (cc)

-- On two bytes `byte2_to_int` gives the number that `w22n` reads.
pub byte2_to_int-w22n :
    (b : List ℕ) → IsBytes b → (n : ℕ) → w22n b ≡ some n → byte2_to_int b 0 ≡ some n
unfolding w22n byte2_to_int
byte2_to_int-w22n (b1 ∷ b0 ∷ []) h n e = ap some (join2_lem b1 b0 h.0 h.1.0 ∙ some-injective _ _ e)
byte2_to_int-w22n b h n e = absurd (cc)
