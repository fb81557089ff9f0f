-- ===== src/Sigint.antt =====
-- `do_sigint`, `ffipoll_sigint` and `ffikernel_ffi` of basis/basis_ffi.c, in the build with EVAL. A signal handler may
-- run between any two statements, so a poll is also modelled as its two statements one by one, with
-- signals between them.
pub mod Reports
pub mod Kernel
use cakeml.Prelude.{ℕ, suc, zero, ◌+◌, ◌≡◌, Bool, true, false, ltb, if◌then◌else◌, List, [], ◌∷◌}
use cakeml.Machine.Word.{u8}
use cakeml.Machine.Run.{M, fault, get, pure, modify, ◌>>=◌, ◌>>◌}
use cakeml.Machine.Buffer.{Call, store}
use cakeml.Machine.Output.{Output, stdout, putc, then_write}

-- `handler` says whether `do_sigint` is installed for SIGINT.
pub record Signals : Type 0 where
  pub caught_sigint : ℕ
  pub handler : Bool

unfoldable pub do_sigint : Signals → Signals
do_sigint g = record g { handler = true; caught_sigint = 1 }

abbrev clear_caught : Call Signals → Call Signals
clear_caught s = record s { world = record (s.world) { caught_sigint = 0 } }

-- A call that nothing interrupts.
unfoldable pub ffipoll_sigint : (alen : ℕ) → M (Call Signals) (Unit {0})
ffipoll_sigint alen =
    if ltb alen 1
    then pure tt
    else do s ← get; store 0 (u8 s.world.caught_sigint); modify clear_caught

-- The loop of `ffikernel_ffi` over the configuration, with `clen - i` rounds left.
unfoldable pub kernel_loop : (rounds : ℕ) → List ℕ → M (List Output) (Unit {0})
kernel_loop zero c = pure tt
kernel_loop (suc rounds) [] = λ s. fault
kernel_loop (suc rounds) (x ∷ c) = do
  modify (λ out. then_write out (putc stdout x))
  kernel_loop rounds c

unfoldable pub ffikernel_ffi : (c : List ℕ) (clen : ℕ) → M (List Output) (Unit {0})
ffikernel_ffi c clen = kernel_loop clen c

-- The two calls of the build without EVAL.
unfoldable pub ffipoll_sigint_quiet : {S : Type 0} (alen : ℕ) → M S (Unit {0})
ffipoll_sigint_quiet alen = pure tt

unfoldable pub ffikernel_ffi_quiet : {S : Type 0} (c : List ℕ) (clen : ℕ) → M S (Unit {0})
ffikernel_ffi_quiet c clen = pure tt

-- The flag and a program that polls without end. `stored` says that the first statement of a poll,
-- `a[0] = caught_sigint`, is done and the second, `caught_sigint = 0`, is not. `signals` and
-- `reports` count the signals and the polls that stored something other than 0.
pub record Poll : Type 0 where
  pub caught : ℕ
  pub a0 : ℕ
  pub stored : Bool
  pub signals : ℕ
  pub reports : ℕ

pub data Event : Type 0 where
  signal statement : Event

unfoldable pub store_flag : Poll → Poll
store_flag p = record p {
  a0 = u8 p.caught;
  stored = true;
  reports = (if ltb 0 p.caught then p.reports + 1 else p.reports);
}

unfoldable pub clear_flag : Poll → Poll
clear_flag p = record p { caught = 0; stored = false }

unfoldable pub step : Event → Poll → Poll
unfolding do_sigint store_flag clear_flag
step signal p =
    let g = do_sigint (record { caught_sigint = p.caught; handler = true }) in
    record p { caught = g.caught_sigint; signals = p.signals + 1 }
step statement p = if p.stored then clear_flag p else store_flag p

unfoldable pub run : List Event → Poll → Poll
unfolding step
run [] p = p
run (e ∷ es) p = run es (step e p)

abbrev pub start : Poll
start = record { caught = 0; a0 = 0; stored = false; signals = 0; reports = 0 }
