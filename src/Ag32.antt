-- ===== src/Ag32.antt =====
-- The calls of compiler/bootstrap/compilation/ag32/32/basis_ffi.c: those on files are the ones of
-- basis/basis_ffi.c with no assertions, and `ffiexit` takes any array.
pub mod Unchecked
pub mod Calls
use cakeml.Prelude.{ℕ, Bool, List, [], ◌∷◌, ltb, if◌then◌else◌}
use cakeml.Prelude.Int.{pos}
use cakeml.Machine.Run.{M, pure, modify, exit, ◌>>=◌, ◌>>◌}
use cakeml.Machine.Buffer.{Call, load}
use cakeml.Machine.Output.{stderr, printf, then_write}
use cakeml.Gc.{Gc}
use cakeml.Files
use cakeml.Files.{ag32}
use cakeml.Files.Syscalls.{Os}

module _ (os : Os) where
  open os use {World}

  unfoldable pub ffiopen_in : (c : List ℕ) (alen : ℕ) → M (Call World) (Unit {0})
  unfolding Files.ffiopen_in
  ffiopen_in = Files.ffiopen_in os ag32

  unfoldable pub ffiopen_out : (c : List ℕ) (alen : ℕ) → M (Call World) (Unit {0})
  unfolding Files.ffiopen_out
  ffiopen_out = Files.ffiopen_out os ag32

  unfoldable pub ffiread : (c : List ℕ) (clen alen : ℕ) → M (Call World) (Unit {0})
  unfolding Files.ffiread
  ffiread = Files.ffiread os ag32

  unfoldable pub ffiwrite : (c : List ℕ) (clen alen : ℕ) → M (Call World) (Unit {0})
  unfolding Files.ffiwrite
  ffiwrite = Files.ffiwrite os ag32

  unfoldable pub fficlose : (c : List ℕ) (clen alen : ℕ) → M (Call World) (Unit {0})
  unfolding Files.fficlose
  fficlose = Files.fficlose os ag32

abbrev pub report : Bool → Gc → Gc
report debug g =
    if debug
    then record g {
      out =
          then_write g.out
            (printf stderr "GCNum: %d, GCTime(us): %ld\n" (pos g.num_gc ∷ g.microsecs ∷ []));
    }
    else g

unfoldable pub cml_exit : (debug : Bool) → ℕ → M (Call Gc) (Unit {0})
cml_exit debug arg = do modify (λ s. record s { world = report debug s.world }); exit arg

unfoldable pub ffiexit : (debug : Bool) (alen : ℕ) → M (Call Gc) (Unit {0})
unfolding cml_exit
ffiexit debug alen = do
  if ltb 0 alen then (do code ← load 0; cml_exit debug code) else pure tt
  cml_exit debug 1
