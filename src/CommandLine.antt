-- ===== src/CommandLine.antt =====
-- The command line: `ffiget_arg_count`, `ffiget_arg_length` and `ffiget_arg` of basis/basis_ffi.c
-- over the globals `argc` and `argv`, and their model in basis/clFFIScript.sml. An argument is the
-- memory block that `argv[i]` points to; `argv[argc]` and what lies behind it is no block. The loops
-- are recursions on the rest of the block; `k++` at the largest `int` is a fault.
pub mod Loops
pub mod Refines
use cakeml.Prelude.{
  ℕ, zero, suc, ◌+◌, ◌*◌, ◌/◌, ◌^◌, ◌≤◌, ◌<◌, ◌≢◌, Bool, ◌&&◌, Option, none, some, List, [], ◌∷◌,
  ◌++◌, map, ltb, leb, ◌==◌, if◌then◌else◌, length, get_elem?, drop, All,
}
use cakeml.Machine.Word.{IsByte, u8}
use cakeml.Machine.Run.{Run, fault, M, pure, lift, ◌>>=◌, ◌>>◌}
use cakeml.Machine.Buffer.{Call, load, store}

pub record Args : Type 0 where
  pub argc : ℕ
  pub argv : List (List ℕ)

-- `while (argv[i][k] != 0) {k++; }` from `k` on.
unfoldable pub count_loop : List ℕ → ℕ → Option ℕ
count_loop [] k = none
count_loop (zero ∷ s) k = some k
count_loop (suc x ∷ s) k =
    let rest = count_loop s (k + 1) in if ltb (k + 1) (2 ^ 31) then rest else none

module _ {W : Type 0} where
  -- The same loop with `a[k] = argv[i][k]` in its body.
  unfoldable pub copy_loop : List ℕ → ℕ → M (Call W) (Unit {0})
  copy_loop [] k = λ s. fault
  copy_loop (zero ∷ s) k = pure tt
  copy_loop (suc x ∷ s) k = do
    store k (suc x)
    if ltb (k + 1) (2 ^ 31) then copy_loop s (k + 1) else λ s. fault

  module _ (args : Args) where
    unfoldable pub ffiget_arg_count : M (Call W) (Unit {0})
    ffiget_arg_count = do store 0 (u8 args.argc); store 1 (u8 (args.argc / 256))

    unfoldable pub ffiget_arg_length : M (Call W) (Unit {0})
    ffiget_arg_length = do
      a0 ← load 0
      a1 ← load 1
      arg ← lift (get_elem? args.argv (a0 + a1 * 256))
      k ← lift (count_loop arg 0)
      store 0 (u8 k)
      store 1 (u8 (k / 256))

    unfoldable pub ffiget_arg : M (Call W) (Unit {0})
    ffiget_arg = do
      a0 ← load 0
      a1 ← load 1
      arg ← lift (get_elem? args.argv (a0 + a1 * 256))
      copy_loop arg 0

-- basis/clFFIScript.sml. A string is the list of its characters; a result `none` is no return.
abbrev pub ValidArg : List ℕ → Type 0
ValidArg s = (length s < 256 * 256) × All (λ x. (0 < x) × IsByte x) s

unfoldable pub ffi_get_arg_count : (bytes : List ℕ) → (args : List (List ℕ)) → Option (List ℕ)
ffi_get_arg_count bytes args =
    if (length bytes == 2) && ltb (length args) (256 * 256)
    then some (u8 (length args) ∷ u8 (length args / 256) ∷ [])
    else none

unfoldable pub string_length : Option (List ℕ) → Option (List ℕ)
string_length none = none
string_length (some arg) = some (u8 (length arg) ∷ u8 (length arg / 256) ∷ [])

unfoldable pub ffi_get_arg_length : (bytes : List ℕ) → (args : List (List ℕ)) → Option (List ℕ)
unfolding string_length
ffi_get_arg_length (b0 ∷ b1 ∷ []) args =
    if ltb (length args) (256 * 256) then string_length (get_elem? args (b1 * 256 + b0)) else none
ffi_get_arg_length _ args = none

unfoldable pub string_into : List ℕ → Option (List ℕ) → Option (List ℕ)
string_into bytes none = none
string_into bytes (some arg) =
    if leb (length arg) (length bytes) then some (arg ++ drop (length arg) bytes) else none

unfoldable pub ffi_get_arg : (bytes : List ℕ) → (args : List (List ℕ)) → Option (List ℕ)
unfolding string_into
ffi_get_arg (b0 ∷ b1 ∷ bytes) args = string_into (b0 ∷ b1 ∷ bytes) (get_elem? args (b1 * 256 + b0))
ffi_get_arg _ args = none

-- The globals that hold the strings of the model.
abbrev pub terminated : List ℕ → List ℕ
terminated s = s ++ 0 ∷ []

abbrev pub args_of : List (List ℕ) → Args
args_of ss = record { argc = length ss; argv = map terminated ss }
