-- ===== src/Tests/OnDoubles.antt =====
-- The calls on doubles, with operations that only move bytes.
use cakeml.Prelude.{
  ℕ, suc, zero, ◌+◌, ◌≡◌, ◌≤◌, refl, ap, subst, arith, false, some, List, [], ◌∷◌, ◌++◌, length,
  take, drop, if◌then◌else◌, ◌==◌,
}
use mathlib.Core.Option.{some-injective}
use cakeml.Machine.Word.{IsBytes, u8}
use cakeml.Machine.Run.{ok, fault}
use cakeml.Machine.Buffer.{call, c_string}
use cakeml.Double.{
  Floats, IsFloats, IsDouble, ffidouble_from_string, ffidouble_to_string, ffidouble_from_int,
  ffidouble_to_int, ffidouble_pow, ffidouble_ln, ffidouble_exp, ffidouble_floor,
}
use cakeml.Double.InPlace.{Replaces, unary_calls, ffidouble_pow-Replaces}
use cakeml.Double.Text.{to_string_reads_back, from_string_branches, from_string_overrun}

-- The first `k` bytes, with zeros where there are none.
abbrev pad : ℕ → List ℕ → List ℕ
pad zero xs = []
pad (suc k) [] = 0 ∷ pad k []
pad (suc k) (x ∷ xs) = u8 x ∷ pad k xs

length-pad : (k : ℕ) (xs : List ℕ) → length (pad k xs) ≡ k
length-pad zero xs = refl
length-pad (suc k) [] = ap suc (length-pad k [])
length-pad (suc k) (x ∷ xs) = ap suc (length-pad k xs)

pad-IsBytes : (k : ℕ) (xs : List ℕ) → IsBytes (pad k xs)
pad-IsBytes zero xs = tt
pad-IsBytes (suc k) [] = (omega arith, pad-IsBytes k [])
pad-IsBytes (suc k) (x ∷ xs) = (omega arith, pad-IsBytes k xs)

pad-IsDouble : (xs : List ℕ) → IsDouble (pad 8 xs)
pad-IsDouble xs = (length-pad 8 xs, pad-IsBytes 8 xs)

-- How many characters '1' a string begins with.
abbrev ones : List ℕ → ℕ
ones [] = 0
ones (x ∷ xs) = if x == b'1' then suc (ones xs) else 0

abbrev moving : Floats
moving = record {
  strtod = λ s. record { value = pad 8 s; consumed = ones s; out_of_range = false };
  print = λ d. b'0' ∷ b'.' ∷ [];
  of_int64 = pad 8;
  to_int64 = λ d. some (pad 8 d);
  pow = λ d e. pad 8 e;
  log = pad 8;
  exp = pad 8;
  floor = pad 8;
}

ones-le : (s : List ℕ) → ones s ≤ length s
ones-le [] = omega arith
ones-le (x ∷ s) = ground (arith, ones-le s)

moving-IsFloats : IsFloats moving
moving-IsFloats = record {
  strtod_double = pad-IsDouble;
  strtod_part = ones-le;
  print_short = λ d. omega arith;
  print_text = λ d. ((omega arith, omega arith), ((omega arith, omega arith), tt));
  of_int64_double = pad-IsDouble;
  to_int64_int = λ d i e. some_pad d i e;
  pow_double = λ d e. pad-IsDouble e;
  log_double = pad-IsDouble;
  exp_double = pad-IsDouble;
  floor_double = pad-IsDouble;
}
  where
    some_pad : (d i : List ℕ) → some (pad 8 d) ≡ some i → IsDouble i
    some_pad d i e = subst IsDouble (some-injective _ _ e) (pad-IsDouble d)

abbrev no_world : ℕ
no_world = 0

abbrev ten : List ℕ
ten = 1 ∷ 2 ∷ 3 ∷ 4 ∷ 5 ∷ 6 ∷ 7 ∷ 8 ∷ 9 ∷ 10 ∷ []

abbrev sixteen : List ℕ
sixteen = 0 ∷ 0 ∷ 0 ∷ 0 ∷ 0 ∷ 0 ∷ 0 ∷ 0 ∷ 1 ∷ 2 ∷ 3 ∷ 4 ∷ 5 ∷ 6 ∷ 7 ∷ 8 ∷ []

unary_calls_example :
    Replaces ten no_world (pad 8 ten) (ffidouble_ln moving (call ten no_world))
    × Replaces ten no_world (pad 8 ten) (ffidouble_exp moving (call ten no_world))
    × Replaces ten no_world (pad 8 ten) (ffidouble_floor moving (call ten no_world))
    × Replaces ten no_world (pad 8 ten) (ffidouble_from_int moving (call ten no_world))
    × (ffidouble_to_int moving (call ten no_world)
        ≡ ok tt (call (pad 8 ten ++ drop 8 ten) no_world))
unary_calls_example = unary_calls moving moving-IsFloats ten no_world (omega arith)

pow_run :
    Replaces sixteen no_world
      (pad 8 (drop 8 sixteen))
      (ffidouble_pow moving (call sixteen no_world))
pow_run = ffidouble_pow-Replaces moving moving-IsFloats sixteen no_world (omega arith)

-- An array of 256 zeros.
abbrev zeros : ℕ → List ℕ
zeros zero = []
zeros (suc n) = 0 ∷ zeros n

to_string_reads_back_example :
    (out : List ℕ) × (ffidouble_to_string moving (call (zeros 256) no_world)
      ≡ ok tt (call out no_world))
    × (out ≡ (b'0' ∷ b'.' ∷ []) ++ 0 ∷ drop (2 + 1) (zeros 256))
    × (c_string out ≡ some (b'0' ∷ b'.' ∷ []))
to_string_reads_back_example = to_string_reads_back moving moving-IsFloats (zeros 256) no_world refl

abbrev eleven : List ℕ
eleven = b'1' ∷ b'1' ∷ []

from_string_branches_example :
    ffidouble_from_string moving (eleven ++ 0 ∷ []) (call ten no_world)
    ≡ ok tt (call (0 ∷ pad 8 eleven ++ drop 9 ten) no_world)
from_string_branches_example =
    from_string_branches moving moving-IsFloats eleven [] ten no_world
      ((omega arith, omega arith), ((omega arith, omega arith), tt)) (omega arith)

from_string_overrun_example :
    ffidouble_from_string moving (eleven ++ 0 ∷ []) (call (take 8 ten) no_world) ≡ fault
from_string_overrun_example =
    from_string_overrun moving moving-IsFloats eleven [] (take 8 ten) no_world
      ((omega arith, omega arith), ((omega arith, omega arith), tt)) (omega arith) refl refl
