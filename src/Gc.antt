-- ===== src/Gc.antt =====
-- The empty FFI call `ffi` of basis/basis_ffi.c with DEBUG_FFI: with no configuration it marks the
-- start or the end of a garbage collection, else it traces. The pointer `c` is also read as a number,
-- the bytes that are in use. A `long` is the integer it stands for; a sum, a difference or a conversion
-- that does not fit its `int` or `long` is a fault.
-- The arithmetic in `double` is exact but for `round`, a parameter that rounds an integer to a
-- `double`. `clock` holds the answers of `gettimeofday` that are still to come.
pub mod Elapsed
pub mod Accounting
pub mod Trace
use cakeml.Prelude.{
  ℕ, zero, suc, ◌+◌, ◌-◌, ◌*◌, ◌/◌, ◌≡◌, Bool, true, false, Option, none, some, List, [], ◌∷◌, ◌++◌,
  String, ◌==◌, ltb, if◌then◌else◌, get_elem?,
}
use cakeml.Prelude.Int.{ℤ, pos, negsuc, sub_ℕ, pos_part, neg_part, ◌+ℤ◌, ◌-ℤ◌, ◌*ℤ◌}
use cakeml.Machine.Word.{signed64, as_long, as_int}
use cakeml.Machine.Run.{M, ok, fault, get, lift, pure, modify, ◌>>=◌, ◌>>◌}
use cakeml.Machine.Output.{Stream, stderr, Output, putc, printf, then_write}

pub record Timeval : Type 0 where
  pub sec : ℤ
  pub usec : ℤ

pub record Gc : Type 0 where
  pub in_gc : ℕ
  pub t1 : Timeval
  pub t2 : Timeval
  pub last_t : Timeval
  pub microsecs : ℤ
  pub num_gc : ℕ
  pub has_t : Bool
  pub prev_occ : ℤ
  pub num_alloc_bytes : ℤ
  pub clock : ℕ → Timeval
  pub out : List Output

abbrev zero_time : Timeval
zero_time = record { sec = pos 0; usec = pos 0 }

-- The globals at the start.
abbrev pub initial : (ℕ → Timeval) → Gc
initial clock = record {
  in_gc = 0;
  t1 = zero_time;
  t2 = zero_time;
  last_t = zero_time;
  microsecs = pos 0;
  num_gc = 0;
  has_t = false;
  prev_occ = pos 0;
  num_alloc_bytes = pos 0;
  clock = clock;
  out = [];
}

abbrev pub million : ℕ
million = 1000000

-- The quotient of C, which rounds towards 0.
abbrev pub div_ℤ : ℤ → ℕ → ℤ
div_ℤ a n = sub_ℕ (pos_part a / n) (neg_part a / n)

-- `gettimeofday`.
abbrev pub read_clock : M Gc Timeval
read_clock g = ok (g.clock 0) (record g { clock = λ n. g.clock (n + 1) })

module _ (round : ℤ → ℤ) where
  -- `(t.tv_usec - s.tv_usec) + (t.tv_sec - s.tv_sec) * 1e6`, a `double`: the differences are of type
  -- `long`.
  unfoldable pub micros : Timeval → Timeval → M Gc ℤ
  micros s t = do
    usecs ← lift (as_long (t.usec -ℤ s.usec))
    secs ← lift (as_long (t.sec -ℤ s.sec))
    pure (round (round usecs +ℤ round (round secs *ℤ million)))

  -- `microsecs += …`, by way of a `double`.
  unfoldable pub add_micros : ℤ → Timeval → Timeval → M Gc ℤ
  add_micros m s t = do d ← micros s t; lift (as_long (round (round m +ℤ d)))

  unfoldable pub gc_stop : ℤ → M Gc (Unit {0})
  gc_stop occ = do
    now ← read_clock
    g ← get
    m ← add_micros g.microsecs g.t1 now
    n ← lift (as_int (g.num_gc + 1))
    modify (λ g. record g { t2 = now; microsecs = m; num_gc = n; in_gc = 0; prev_occ = occ })

  unfoldable pub gc_start : ℤ → M Gc (Unit {0})
  gc_start occ = do
    now ← read_clock
    g ← get
    grown ← lift (as_long (occ -ℤ g.prev_occ))
    total ← lift (as_long (g.num_alloc_bytes +ℤ grown))
    modify (λ g. record g { in_gc = 1; t1 = now; num_alloc_bytes = total })

  abbrev mark : ℤ → M Gc (Unit {0})
  mark occ = do g ← get; if g.in_gc == 1 then gc_stop occ else gc_start occ

  abbrev write_out : Output → Gc → Gc
  write_out o g = record g { out = then_write g.out o }

  -- `for (int i=0; i<clen; i++) {putc(c[i],stderr); indent--; }` with `clen - i` rounds left, on the
  -- configuration from `i` on.
  unfoldable pub put_conf : (rounds : ℕ) → List ℕ → M Gc (Unit {0})
  put_conf zero c = pure tt
  put_conf (suc rounds) [] = λ s. fault
  put_conf (suc rounds) (x ∷ c) = do modify (write_out (putc stderr x)); put_conf rounds c

  -- The loop that writes `indent` spaces, if that is positive.
  unfoldable pub put_spaces : ℕ → M Gc (Unit {0})
  put_spaces zero = pure tt
  put_spaces (suc indent) = do modify (write_out (putc stderr 32)); put_spaces indent

  -- The end of a line of the trace, with the milliseconds since the last one.
  unfoldable pub trace_line : (has_t : Bool) → Timeval → Timeval → M Gc Output
  trace_line false last now = pure (printf stderr "\n" [])
  trace_line true last now = do
    d ← micros last now
    usecs ← lift (as_long d)
    pure (printf stderr " --- %ld milliseconds\n" (div_ℤ usecs 1000 ∷ []))

  unfoldable pub trace_end : M Gc (Unit {0})
  trace_end = do
    now ← read_clock
    g ← get
    line ← trace_line g.has_t g.last_t now
    modify (write_out line)
    last ← read_clock
    modify (λ g. record g { last_t = last; has_t = true })

  -- `c_addr` is the pointer `c` as a number.
  unfoldable pub ffi : (c_addr : ℕ) (c : List ℕ) (clen : ℕ) → M Gc (Unit {0})
  unfolding put_conf put_spaces
  ffi c_addr c clen =
      if clen == 0
      then mark (signed64 c_addr)
      else do put_conf clen c; put_spaces (30 - clen); trace_end

-- Without DEBUG_FFI the call does nothing.
unfoldable pub ffi_quiet : {S : Type 0} (c_addr : ℕ) (c : List ℕ) (clen : ℕ) → M S (Unit {0})
ffi_quiet c_addr c clen = pure tt
