-- ===== src/Tests/OnCopies.antt =====
-- The other copies of the C: for Pancake, for ag32 and for `yes`.
use cakeml.Prelude.{
  ◌⊎◌, true, ℕ, suc, zero, ◌+◌, ◌/◌, ◌^◌, ◌≡◌, ◌≢◌, refl, sym, ap, arith, false, none, some, List,
  [], ◌∷◌, ◌++◌, length,
}
use mathlib.Core.Option.{some-injective}
use cakeml.Machine.Run.{ok, exited, aborted, fault}
use cakeml.Machine.Buffer.{call}
use cakeml.Machine.Output.{Output, putc, printf, stdout, stderr}
use cakeml.Marshal.{byte8_to_int, join8}
use cakeml.Gc.{Gc, initial}
use cakeml.Prelude.Int.{pos}
use cakeml.Exit
use cakeml.Files
use cakeml.Files.{basis}
use cakeml.Files.Syscalls.{Os}
use cakeml.Main.{Process, System}
use cakeml.Main.Starts.{IsContiguous}
use cakeml.Pancake.{started, Scanf, ffidouble_from_string}
use cakeml.Pancake.Time.{polls, at_time, time_of, input_of, polls_read}
use cakeml.Pancake.Doubles.{from_string_lem}
use cakeml.Ag32.{ffiread, ffiexit}
use cakeml.Ag32.Unchecked.{read_overrun, ffiexit_exits}
use cakeml.Yes
use cakeml.Yes.{ffiput_char}
use cakeml.Yes.Behaviour.{put_char_plain, put_char_format, main_runs}

abbrev zeros : ℕ → List ℕ
zeros zero = []
zeros (suc n) = 0 ∷ zeros n

polls_read_example :
    (a : List ℕ) × (out : List Output) × (polls 3 (call (zeros 20) (started))
      ≡ ok tt (call a (at_time (400 + 3) out)))
    × (time_of a ≡ (400 + 3) / 4)
    × (input_of a ≡ 0)
    × (length a ≡ 20)
    × (length out ≡ 0 + 3)
polls_read_example = polls_read 2 400 [] (zeros 20) (omega arith) (omega arith)

-- A `sscanf` that finds a number only in "1".
abbrev scanner : Scanf
scanner = record {
  sscanf = λ s. elim s [ [] ↦ none | x ∷ rest ↦ some (x ∷ zeros 7) ];
  format = λ d. b'0' ∷ [];
}

abbrev no_world : ℕ
no_world = 0

scanned_size : (s d : List ℕ) → scanner.sscanf s ≡ some d → length d ≡ 8
scanned_size [] d e = absurd (cc)
scanned_size (x ∷ s) d e = sym (ap length (some-injective _ _ e))

from_string_lem_example :
    ffidouble_from_string scanner (zeros 8) (b'1' ∷ 0 ∷ []) 8 (call (zeros 8) no_world)
    ≡ ok tt (call (b'1' ∷ zeros 7) no_world)
from_string_lem_example =
    from_string_lem scanner (zeros 8) (b'1' ∷ []) [] (zeros 8) no_world
      ((omega arith, omega arith), tt) refl (scanned_size (b'1' ∷ []))

-- A system that always has as many bytes as it is asked for.
abbrev plenty : Os
plenty = record {
  World = ℕ;
  open_file = λ path flags perms w. (3, w);
  read = λ fd n w. ((n, zeros n), w);
  write = λ fd bytes w. (length bytes, w);
  close = λ fd w. (0, w);
}

abbrev three_conf : List ℕ
three_conf = 0 ∷ 0 ∷ 0 ∷ 0 ∷ 0 ∷ 0 ∷ 0 ∷ 3 ∷ []

three_lem : byte8_to_int three_conf 0 ≡ some 3
unfolding byte8_to_int join8
three_lem = refl

read_overrun_example :
    (Files.ffiread plenty basis three_conf 8 5 (call (0 ∷ 9 ∷ zeros 3) no_world)
      ≡ aborted (call (0 ∷ 9 ∷ zeros 3) no_world))
    × (ffiread plenty three_conf 8 5 (call (0 ∷ 9 ∷ zeros 3) no_world) ≡ fault)
read_overrun_example =
    read_overrun plenty three_conf 3 0 9 (zeros 3) no_world refl three_lem (omega arith)
      (omega arith) (omega arith) refl

abbrev began : Gc
began = initial (λ n. record { sec = pos n; usec = pos 0 })

abbrev seven_nine : List ℕ
seven_nine = 7 ∷ 9 ∷ []

ffiexit_exits_example :
    (code : ℕ) × (line : List Output) × (ffiexit true 2 (call seven_nine began)
      ≡ exited code (call seven_nine (record began { out = [] ++ line })))
    × (code ≡ 7)
    × (line ≡ printf stderr "GCNum: %d, GCTime(us): %ld\n" (pos 0 ∷ pos 0 ∷ []) ∷ [])
    × (((length seven_nine ≡ 1)
          × (Exit.ffiexit 2 (call seven_nine began) ≡ exited code (call seven_nine began)))
        ⊎ ((length seven_nine ≢ 1)
            × (Exit.ffiexit 2 (call seven_nine began) ≡ aborted (call seven_nine began))))
ffiexit_exits_example = ffiexit_exits true seven_nine began

abbrev letter : ℕ
letter = b'y'

not_percent : letter ≢ b'%'
not_percent e = absurd (omega (arith, e))

plain_run : ffiput_char (letter ∷ 0 ∷ []) [] ≡ ok tt (putc stdout letter ∷ [])
plain_run = put_char_plain (letter ∷ []) [] [] ((omega arith, omega arith), tt) (not_percent, tt)

put_char_format_example :
    (ffiput_char (letter ∷ b'%' ∷ b'%' ∷ letter ∷ 0 ∷ []) []
      ≡ ok tt (putc stdout letter ∷ putc stdout b'%' ∷ putc stdout letter ∷ []))
    × (ffiput_char (letter ∷ b'%' ∷ b's' ∷ letter ∷ 0 ∷ []) []
        ≡ ok tt
            (putc stdout letter ∷ putc stdout b'%' ∷ putc stdout b's' ∷ putc stdout letter ∷ []))
    × (ffiput_char (letter ∷ b'%' ∷ 0 ∷ []) [] ≡ fault)
put_char_format_example =
    put_char_format (letter ∷ []) (letter ∷ []) [] [] ((omega arith, omega arith), tt)
      ((omega arith, omega arith), tt) (not_percent, tt) (not_percent, tt)

abbrev idle : Process
idle = record {
  args = record { argc = 0; argv = [] };
  signals = record { caught_sigint = 0; handler = false };
  out = [];
  cml_heap = 0;
  cml_stack = 0;
  cml_stackend = 0;
}

abbrev machine : System
machine = record {
  heap_env = none;
  stack_env = none;
  malloc = λ n. some 4096;
  mprotect = 0;
  cml_main = λ p. ok tt p;
}

main_runs_example :
    (q : Process) × (Yes.main machine idle ≡ ok tt q)
    × IsContiguous 4096 (2 ^ 30) (2 ^ 30) q
    × (q.out ≡ [])
main_runs_example = main_runs machine 4096 idle refl (omega arith)
