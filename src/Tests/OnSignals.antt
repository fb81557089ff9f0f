-- ===== src/Tests/OnSignals.antt =====
-- Signals around a poll, and the kernel's output.
use cakeml.Prelude.{ℕ, ◌+◌, ◌≡◌, refl, arith, true, List, [], ◌∷◌, ◌++◌, length, map, take}
use cakeml.Machine.Run.{ok}
use cakeml.Machine.Buffer.{call}
use cakeml.Machine.Output.{putc, stdout}
use cakeml.Sigint.{Poll, Event, signal, statement, run, start, ffipoll_sigint, ffikernel_ffi}
use cakeml.Sigint.Reports.{poll-statements, poll_reports_once, signal_lost, statements}
use cakeml.Sigint.Kernel.{kernel_ffi_prints}

abbrev mixed : List Event
mixed = signal ∷ statement ∷ signal ∷ statement ∷ statement ∷ []

abbrev signalled : Poll
signalled = record start { caught = 1; signals = 1 }

abbrev seven_eight : List ℕ
seven_eight = 7 ∷ 8 ∷ []

poll-statements_example :
    ffipoll_sigint
      (length seven_eight)
      (call seven_eight (record { caught_sigint = 1; handler = true }))
    ≡ ok tt (
        call ((run (statement ∷ statement ∷ []) signalled).a0 ∷ 8 ∷ []) (record {
          caught_sigint = (run (statement ∷ statement ∷ []) signalled).caught;
          handler = true;
        }))
poll-statements_example = poll-statements signalled true 7 (8 ∷ []) refl

poll_reports_once_example :
    ((run (signal ∷ statement ∷ statement ∷ []) signalled).a0 ≡ 1)
    × ((run (statement ∷ statement ∷ []) (run (signal ∷ statement ∷ statement ∷ []) signalled)).a0
        ≡ 0)
poll_reports_once_example = poll_reports_once signalled refl

signal_lost_example :
    ((run (statement ∷ signal ∷ statement ∷ []) start).a0 ≡ 0)
    × ((run (statement ∷ signal ∷ statement ∷ []) start).signals ≡ 0 + 1)
    × ((run (statements 4) (run (statement ∷ signal ∷ statement ∷ []) start)).a0 ≡ 0)
signal_lost_example = signal_lost start 4 refl refl

kernel_run :
    ffikernel_ffi (b'o' ∷ 0 ∷ b'k' ∷ []) 2 []
    ≡ ok tt ([] ++ map (putc stdout) (take 2 (b'o' ∷ 0 ∷ b'k' ∷ [])))
kernel_run = kernel_ffi_prints (b'o' ∷ 0 ∷ b'k' ∷ []) 2 [] (omega arith)
