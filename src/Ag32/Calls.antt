-- ===== src/Ag32/Calls.antt =====
-- The calls of compiler/bootstrap/compilation/ag32/32/basis_ffi.c that are those of the other copies,
-- line by line: the command line as in basis/basis_ffi.c, the empty call as in
-- pancake/temp/basis_ffi.c.
use cakeml.Prelude.{ℕ, List}
use cakeml.Prelude.Int.{ℤ}
use cakeml.Machine.Run.{M}
use cakeml.Machine.Buffer.{Call}
use cakeml.CommandLine
use cakeml.CommandLine.{Args}
use cakeml.Gc.{Gc}
use cakeml.Pancake

module _ (args : Args) {W : Type 0} where
  unfoldable pub ffiget_arg_count : M (Call W) (Unit {0})
  unfolding CommandLine.ffiget_arg_count
  ffiget_arg_count = CommandLine.ffiget_arg_count args

  unfoldable pub ffiget_arg_length : M (Call W) (Unit {0})
  unfolding CommandLine.ffiget_arg_length
  ffiget_arg_length = CommandLine.ffiget_arg_length args

  unfoldable pub ffiget_arg : M (Call W) (Unit {0})
  unfolding CommandLine.ffiget_arg
  ffiget_arg = CommandLine.ffiget_arg args

unfoldable pub ffi : (ℤ → ℤ) → (c : List ℕ) (clen : ℕ) → M Gc (Unit {0})
unfolding Pancake.ffi
ffi = Pancake.ffi
