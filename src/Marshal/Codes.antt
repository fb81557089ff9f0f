-- ===== src/Marshal/Codes.antt =====
-- What the conversions of the C do, in the terms of MarshallingScript.sml, and their round trips.
use cakeml.Prelude.{
  ℕ, ◌+◌, ◌*◌, ◌/◌, ◌^◌, ◌≤◌, ◌<◌, ◌≡◌, ap, ◌∙◌, arith, some, List, [], ◌∷◌, length,
}
use cakeml.Machine.Word.{IsByte, bit_and_byte, u8, sign_extend}
use cakeml.Machine.Run.{ok, ◌>>◌}
use cakeml.Machine.Buffer.{call, store, overwrite}
use cakeml.Machine.Buffer.Laws.{store_lem, store_next, get_elem?-overwrite, get_elem?_start}
use cakeml.Marshal.{int_to_byte2, int_to_byte8, byte2_to_int, byte8_to_int, n2w2, n2w8}
use cakeml.Marshal.Words.{byte_of_int, bytes_of_int8, join2_lem, join8_lem}

-- `int_to_byte2` writes two bytes, at any place that has them.
pub int_to_byte2_lem :
    {W : Type 0} (i b : ℕ) (a : List ℕ) (w : W)
    → i < 2 ^ 32
    → b + 2 ≤ length a
    → int_to_byte2 i b (call a w) ≡ ok tt (call (overwrite b (n2w2 i) a) w)
unfolding int_to_byte2 n2w2
int_to_byte2_lem i b a w hi h = rw (store_lem b _ a w (omega arith)) (
    store_next b _ _ a w (omega arith)
    ∙ rw (byte_of_int i hi, bit_and_byte i)
        (ap (λ (t : ℕ). ok tt (call (overwrite b (u8 (i / 256) ∷ t ∷ []) a) w)) (omega arith)))

store_eight :
    {W : Type 0} (x0 x1 x2 x3 x4 x5 x6 x7 b : ℕ) (a : List ℕ) (w : W)
    → b + 8 ≤ length a
    → (do
      store b x0
      store (b + 1) x1
      store (b + 2) x2
      store (b + 3) x3
      store (b + 4) x4
      store (b + 5) x5
      store (b + 6) x6
      store (b + 7) x7)
        (call a w)
      ≡ ok tt (call (overwrite b (x0 ∷ x1 ∷ x2 ∷ x3 ∷ x4 ∷ x5 ∷ x6 ∷ x7 ∷ []) a) w)
store_eight x0 x1 x2 x3 x4 x5 x6 x7 b a w h = rw (
  store_lem b x0 a w (omega arith),
  store_next b (x0 ∷ []) x1 a w (omega arith),
  store_next b (x0 ∷ x1 ∷ []) x2 a w (omega arith),
  store_next b (x0 ∷ x1 ∷ x2 ∷ []) x3 a w (omega arith),
  store_next b (x0 ∷ x1 ∷ x2 ∷ x3 ∷ []) x4 a w (omega arith),
  store_next b (x0 ∷ x1 ∷ x2 ∷ x3 ∷ x4 ∷ []) x5 a w (omega arith),
  store_next b (x0 ∷ x1 ∷ x2 ∷ x3 ∷ x4 ∷ x5 ∷ []) x6 a w (omega arith),
  store_next b (x0 ∷ x1 ∷ x2 ∷ x3 ∷ x4 ∷ x5 ∷ x6 ∷ []) x7 a w (omega arith),
)

-- `int_to_byte8` writes eight, those of the sign-extended value.
pub int_to_byte8_lem :
    {W : Type 0} (i b : ℕ) (a : List ℕ) (w : W)
    → i < 2 ^ 32
    → b + 8 ≤ length a
    → int_to_byte8 i b (call a w) ≡ ok tt (call (overwrite b (n2w8 (sign_extend i)) a) w)
unfolding int_to_byte8
int_to_byte8_lem i b a w hi h =
    store_eight _ _ _ _ _ _ _ _ b a w h
    ∙ ap (λ t. ok tt (call (overwrite b t a) w)) (bytes_of_int8 (sign_extend i) (ground arith))

pub byte2_to_int-overwrite :
    (b x0 x1 : ℕ) (a : List ℕ)
    → IsByte x0
    → IsByte x1
    → b + 2 ≤ length a
    → byte2_to_int (overwrite b (x0 ∷ x1 ∷ []) a) b ≡ some (x0 * 256 + x1)
unfolding byte2_to_int
byte2_to_int-overwrite b x0 x1 a h0 h1 fits = ground (
  arith,
  get_elem?_start b (x0 ∷ x1 ∷ []) a fits,
  get_elem?-overwrite b 1 (x0 ∷ x1 ∷ []) a,
  join2_lem x0 x1,
)

pub byte8_to_int-overwrite :
    (b x0 x1 x2 x3 x4 x5 x6 x7 : ℕ) (a : List ℕ)
    → IsByte x4
    → IsByte x5
    → IsByte x6
    → IsByte x7
    → b + 8 ≤ length a
    → byte8_to_int (overwrite b (x0 ∷ x1 ∷ x2 ∷ x3 ∷ x4 ∷ x5 ∷ x6 ∷ x7 ∷ []) a) b
      ≡ some (x4 * 2 ^ 24 + x5 * 2 ^ 16 + x6 * 2 ^ 8 + x7)
unfolding byte8_to_int
byte8_to_int-overwrite b x0 x1 x2 x3 x4 x5 x6 x7 a h4 h5 h6 h7 fits = rw (
  get_elem?_start b xs a fits (omega arith),
  get_elem?-overwrite b 1 xs a fits (omega arith),
  get_elem?-overwrite b 2 xs a fits (omega arith),
  get_elem?-overwrite b 3 xs a fits (omega arith),
  get_elem?-overwrite b 4 xs a fits (omega arith),
  get_elem?-overwrite b 5 xs a fits (omega arith),
  get_elem?-overwrite b 6 xs a fits (omega arith),
  get_elem?-overwrite b 7 xs a fits (omega arith),
  join8_lem x0 x1 x2 x3 x4 x5 x6 x7 h4 h5 h6 h7,
)
  where
    xs : List ℕ
    xs = x0 ∷ x1 ∷ x2 ∷ x3 ∷ x4 ∷ x5 ∷ x6 ∷ x7 ∷ []
