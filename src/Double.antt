-- ===== src/Double.antt =====
-- The calls on doubles of basis/basis_ffi.c. A `double` and an `int64_t` are the eight bytes that
-- represent them, as the unions `double_bytes` and `int_bytes` show them, so `memcpy` into and out of
-- a union is the identity. Floating-point operations and conversions are a parameter.
pub mod InPlace
pub mod Text
use cakeml.Prelude.{
  ℕ, zero, suc, ◌+◌, ◌≤◌, ◌<◌, ◌≡◌, Bool, Option, none, some, List, [], ◌∷◌, ◌++◌, length, take,
  get_elem?, All, ◌==◌, if◌then◌else◌,
}
use cakeml.Machine.Word.{IsByte, IsBytes}
use cakeml.Machine.Run.{M, lift, ◌>>=◌, ◌>>◌}
use cakeml.Machine.Buffer.{Call, c_string, store, copy_from, copy_to}

-- What `strtod` answers: the number, how much of the string it took, and whether `errno` is ERANGE.
pub record Parsed : Type 0 where
  pub value : List ℕ
  pub consumed : ℕ
  pub out_of_range : Bool

-- `print` is the format "%.20g". `to_int64` is undefined, `none`, where the value does not fit.
pub record Floats : Type 0 where
  pub strtod : List ℕ → Parsed
  pub print : List ℕ → List ℕ
  pub of_int64 : List ℕ → List ℕ
  pub to_int64 : List ℕ → Option (List ℕ)
  pub pow : List ℕ → List ℕ → List ℕ
  pub log : List ℕ → List ℕ
  pub exp : List ℕ → List ℕ
  pub floor : List ℕ → List ℕ

-- A representation.
abbrev pub IsDouble : List ℕ → Type 0
IsDouble d = (length d ≡ 8) × IsBytes d

-- What is relied on: results are eight bytes, `strtod` takes a part of its string, and "%.20g" prints
-- at most 32 characters, none of them 0.
pub record IsFloats (f : Floats) : Type 0 where
  pub strtod_double : (s : List ℕ) → IsDouble ((f.strtod s).value)
  pub strtod_part : (s : List ℕ) → (f.strtod s).consumed ≤ length s
  pub print_short : (d : List ℕ) → length (f.print d) ≤ 32
  pub print_text : (d : List ℕ) → All (λ x. (0 < x) × IsByte x) (f.print d)
  pub of_int64_double : (d : List ℕ) → IsDouble (f.of_int64 d)
  pub to_int64_int : (d i : List ℕ) → f.to_int64 d ≡ some i → IsDouble i
  pub pow_double : (d e : List ℕ) → IsDouble (f.pow d e)
  pub log_double : (d : List ℕ) → IsDouble (f.log d)
  pub exp_double : (d : List ℕ) → IsDouble (f.exp d)
  pub floor_double : (d : List ℕ) → IsDouble (f.floor d)

module _ (f : Floats) {W : Type 0} where
  unfoldable pub ffidouble_from_string : (c : List ℕ) → M (Call W) (Unit {0})
  ffidouble_from_string c = do
    s ← lift (c_string c)
    let d = f.strtod s
    if d.out_of_range then store 0 1 else do
      end ← lift (get_elem? c d.consumed)
      if end == 0 then (do store 0 0; copy_to 1 d.value) else store 0 1

  -- `snprintf(a, 255, …)` writes at most 254 characters and the 0 behind them.
  unfoldable pub ffidouble_to_string : M (Call W) (Unit {0})
  ffidouble_to_string = do d ← copy_from 0 8; copy_to 0 (take 254 (f.print d) ++ 0 ∷ [])

  unfoldable pub ffidouble_from_int : M (Call W) (Unit {0})
  ffidouble_from_int = do i ← copy_from 0 8; copy_to 0 (f.of_int64 i)

  unfoldable pub ffidouble_to_int : M (Call W) (Unit {0})
  ffidouble_to_int = do d ← copy_from 0 8; i ← lift (f.to_int64 d); copy_to 0 i

  unfoldable pub ffidouble_pow : M (Call W) (Unit {0})
  ffidouble_pow = do x ← copy_from 0 8; y ← copy_from 8 8; copy_to 0 (f.pow x y)

  unfoldable pub ffidouble_ln : M (Call W) (Unit {0})
  ffidouble_ln = do d ← copy_from 0 8; copy_to 0 (f.log d)

  unfoldable pub ffidouble_exp : M (Call W) (Unit {0})
  ffidouble_exp = do d ← copy_from 0 8; copy_to 0 (f.exp d)

  unfoldable pub ffidouble_floor : M (Call W) (Unit {0})
  ffidouble_floor = do d ← copy_from 0 8; copy_to 0 (f.floor d)
