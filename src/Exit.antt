-- ===== src/Exit.antt =====
-- How the program ends: `cml_exit`, `cml_err` and `ffiexit` of basis/basis_ffi.c, with its
-- STDERR_MEM_EXHAUST. `exit` gets the `int` as its bit pattern. The state is what `cml_exit` prints
-- from: the counters of the collector, and the output.
pub mod Codes
use cakeml.Prelude.{
  ℕ, zero, suc, ◌+◌, Bool, true, false, not, List, [], ◌∷◌, ◌++◌, String, ◌==◌, if◌then◌else◌,
}
use cakeml.Prelude.Int.{ℤ, pos}
use cakeml.Machine.Word.{signed32}
use cakeml.Machine.Run.{M, pure, modify, exit, assert, ◌>>=◌, ◌>>◌, get}
use cakeml.Machine.Buffer.{Call, load}
use cakeml.Machine.Output.{Output, stderr, printf, then_write}
use cakeml.Gc.{Gc}

abbrev pub say : Gc → String → List ℤ → Gc
say g text args = record g { out = then_write g.out (printf stderr text args) }

abbrev pub exhausted : ℕ → Gc → Gc
exhausted arg g =
    if arg == 1
    then say g "CakeML heap space exhausted.\n" []
    else (if arg == 2 then say g "CakeML stack space exhausted.\n" [] else g)

-- The block under DEBUG_FFI.
unfoldable pub gc_report : ℕ → Gc → Gc
gc_report arg g =
    let g' = exhausted arg g in
    let g'' = say g' "GCNum: %d, GCTime(us): %ld\n" (pos g.num_gc ∷ g.microsecs ∷ []) in
    say g'' "Total allocated heap data: %ld bytes\n" (g.num_alloc_bytes ∷ [])

unfoldable pub exit_report : (debug : Bool) → ℕ → Gc → Gc
unfolding gc_report
exit_report debug arg g =
    let g' = if not (arg == 0) then say g "Program exited with nonzero exit code.\n" [] else g in
    if debug then gc_report arg g' else g'

unfoldable pub cml_exit : (debug : Bool) → ℕ → M Gc (Unit {0})
unfolding exit_report
cml_exit debug arg = do modify (exit_report debug arg); exit arg

abbrev pub not_ready : String
not_ready =
    "Memory not ready for entry. You may have not run the init code yet, or be trying to enter during an FFI call.\n"

unfoldable pub cml_err : (debug : Bool) → ℕ → M Gc (Unit {0})
unfolding cml_exit
cml_err debug arg = do modify (λ g. if arg == 3 then say g not_ready [] else g); cml_exit debug arg

unfoldable pub ffiexit : {W : Type 0} (alen : ℕ) → M (Call W) (Unit {0})
ffiexit alen = do assert (alen == 1); code ← load 0; exit code
