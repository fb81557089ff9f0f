-- ===== src/Tests/OnArguments.antt =====
-- The command line "ab" "c".
use cakeml.Prelude.{ℕ, ◌≡◌, refl, arith, some, List, [], ◌∷◌, All}
use cakeml.Machine.Run.{ok, fault}
use cakeml.Machine.Buffer.{call}
use cakeml.CommandLine.{
  ffiget_arg_count, ffiget_arg_length, ffiget_arg, ValidArg, args_of, ffi_get_arg_count,
  ffi_get_arg_length, ffi_get_arg,
}
use cakeml.CommandLine.Refines.{
  ffiget_arg_count-refines, ffiget_arg_length-refines, ffiget_arg-refines, ffiget_arg_overrun,
}

abbrev no_world : ℕ
no_world = 0

abbrev words : List (List ℕ)
words = (b'a' ∷ b'b' ∷ []) ∷ (b'c' ∷ []) ∷ []

words_valid : All ValidArg words
words_valid = (
  (omega arith, ((omega arith, omega arith), ((omega arith, omega arith), tt))),
  ((omega arith, ((omega arith, omega arith), tt)), tt),
)

counted : ffi_get_arg_count (9 ∷ 9 ∷ []) words ≡ some (2 ∷ 0 ∷ [])
unfolding ffi_get_arg_count
counted = refl

ffiget_arg_count-refines_example :
    ffiget_arg_count (args_of words) (call (9 ∷ 9 ∷ []) no_world)
    ≡ ok tt (call (2 ∷ 0 ∷ []) no_world)
ffiget_arg_count-refines_example =
    ffiget_arg_count-refines {W = ℕ} words (9 ∷ 9 ∷ []) (2 ∷ 0 ∷ []) no_world counted

measured : ffi_get_arg_length (0 ∷ 0 ∷ []) words ≡ some (2 ∷ 0 ∷ [])
unfolding ffi_get_arg_length
measured = refl

ffiget_arg_length-refines_example :
    ffiget_arg_length (args_of words) (call (0 ∷ 0 ∷ []) no_world)
    ≡ ok tt (call (2 ∷ 0 ∷ []) no_world)
ffiget_arg_length-refines_example =
    ffiget_arg_length-refines {W = ℕ} words (0 ∷ 0 ∷ []) (2 ∷ 0 ∷ []) no_world words_valid measured

fetched : ffi_get_arg (1 ∷ 0 ∷ 7 ∷ []) words ≡ some (b'c' ∷ 0 ∷ 7 ∷ [])
unfolding ffi_get_arg
fetched = refl

ffiget_arg-refines_example :
    ffiget_arg (args_of words) (call (1 ∷ 0 ∷ 7 ∷ []) no_world)
    ≡ ok tt (call (b'c' ∷ 0 ∷ 7 ∷ []) no_world)
ffiget_arg-refines_example =
    ffiget_arg-refines {W = ℕ} words (1 ∷ 0 ∷ 7 ∷ []) (b'c' ∷ 0 ∷ 7 ∷ []) no_world words_valid
      fetched

abbrev long_word : List (List ℕ)
long_word = (b'a' ∷ b'b' ∷ b'c' ∷ []) ∷ []

ffiget_arg_overrun_example : ffiget_arg (args_of long_word) (call (0 ∷ 0 ∷ []) no_world) ≡ fault
ffiget_arg_overrun_example =
    ffiget_arg_overrun {W = ℕ} long_word 0 0 [] (b'a' ∷ b'b' ∷ b'c' ∷ []) no_world refl
      ((omega arith, omega arith), ((omega arith, omega arith), ((omega arith, omega arith), tt)))
      (omega arith)
