-- ===== src/Pancake/Calls.antt =====
-- The calls of pancake/temp/basis_ffi.c that are those of basis/basis_ffi.c, line by line, and its
-- `cml_exit`, which prints no count of allocated bytes.
use cakeml.Prelude.{ℕ, Bool, not, List, [], ◌∷◌, ◌==◌, if◌then◌else◌}
use cakeml.Prelude.Int.{pos}
use cakeml.Machine.Run.{M, modify, exit, ◌>>◌}
use cakeml.Machine.Buffer.{Call}
use cakeml.CommandLine
use cakeml.CommandLine.{Args}
use cakeml.Files
use cakeml.Files.{basis}
use cakeml.Files.Syscalls.{Os}
use cakeml.Gc.{Gc}
use cakeml.Exit
use cakeml.Exit.{say, exhausted}

module _ (args : Args) {W : Type 0} where
  unfoldable pub ffiget_arg_count : M (Call W) (Unit {0})
  unfolding CommandLine.ffiget_arg_count
  ffiget_arg_count = CommandLine.ffiget_arg_count args

  unfoldable pub ffiget_arg_length : M (Call W) (Unit {0})
  unfolding CommandLine.ffiget_arg_length
  ffiget_arg_length = CommandLine.ffiget_arg_length args

  unfoldable pub ffiget_arg : M (Call W) (Unit {0})
  unfolding CommandLine.ffiget_arg
  ffiget_arg = CommandLine.ffiget_arg args

module _ (os : Os) where
  open os use {World}

  unfoldable pub ffiopen_in : (c : List ℕ) (alen : ℕ) → M (Call World) (Unit {0})
  unfolding Files.ffiopen_in
  ffiopen_in = Files.ffiopen_in os basis

  unfoldable pub ffiopen_out : (c : List ℕ) (alen : ℕ) → M (Call World) (Unit {0})
  unfolding Files.ffiopen_out
  ffiopen_out = Files.ffiopen_out os basis

  unfoldable pub ffiread : (c : List ℕ) (clen alen : ℕ) → M (Call World) (Unit {0})
  unfolding Files.ffiread
  ffiread = Files.ffiread os basis

  unfoldable pub ffiwrite : (c : List ℕ) (clen alen : ℕ) → M (Call World) (Unit {0})
  unfolding Files.ffiwrite
  ffiwrite = Files.ffiwrite os basis

  unfoldable pub fficlose : (c : List ℕ) (clen alen : ℕ) → M (Call World) (Unit {0})
  unfolding Files.fficlose
  fficlose = Files.fficlose os basis

unfoldable pub exit_report : (debug : Bool) → ℕ → Gc → Gc
exit_report debug arg g =
    let g' = if not (arg == 0) then say g "Program exited with nonzero exit code.\n" [] else g in
    let g'' = exhausted arg g' in
    if debug then say g'' "GCNum: %d, GCTime(us): %ld\n" (pos g.num_gc ∷ g.microsecs ∷ []) else g'

unfoldable pub cml_exit : (debug : Bool) → ℕ → M Gc (Unit {0})
unfolding exit_report
cml_exit debug arg = do modify (exit_report debug arg); exit arg

unfoldable pub ffiexit : {W : Type 0} (alen : ℕ) → M (Call W) (Unit {0})
unfolding Exit.ffiexit
ffiexit alen = Exit.ffiexit alen
