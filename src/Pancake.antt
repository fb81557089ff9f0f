-- ===== src/Pancake.antt =====
-- What pancake/temp/basis_ffi.c has of its own: a clock for timed programs, three signals, the calls
-- on doubles, the trace without the count of allocated bytes, and `main`. Calls has the rest, most of
-- which is that of basis/basis_ffi.c.
pub mod Time
pub mod Doubles
pub mod Boots
pub mod Calls
use cakeml.Prelude.{
  ℕ, zero, suc, ◌+◌, ◌-◌, ◌*◌, ◌/◌, ◌%◌, ◌^◌, Bool, true, false, not, ◌||◌, Option, none, some,
  List, [], ◌∷◌, ◌++◌, length, take, ◌==◌, ltb, leb, if◌then◌else◌, get_elem?,
}
use cakeml.Prelude.Int.{ℤ, pos}
use cakeml.Machine.Word.{u8, u64, as_int}
use cakeml.Machine.Run.{Run, M, fault, get, pure, lift, modify, exit, assert, ◌>>=◌, ◌>>◌}
use cakeml.Machine.Buffer.{Call, c_string, load, store, copy_from, copy_to}
use cakeml.Machine.Output.{Output, stdout, stderr, printf, then_write}
use cakeml.CommandLine.{Args}
use cakeml.Gc.{Gc, read_clock, add_micros, put_conf, put_spaces, trace_end}
use cakeml.Main.{Process, System, sz, say, sizes, size_from, set_args}

-- The variable `time` and the output.
pub record Clock : Type 0 where
  pub time : ℕ
  pub out : List Output

-- `long time = 400;`
abbrev pub started : Clock
started = record { time = 400; out = [] }

abbrev pub print : Output → Call Clock → Call Clock
print o s = record s { world = record (s.world) { out = then_write s.world.out o } }

-- The bytes of a `long` in memory, the least significant first.
unfoldable pub long_bytes : ℕ → ℕ → List ℕ
long_bytes zero n = []
long_bytes (suc k) n = u8 n ∷ long_bytes k (n / 256)

abbrev advance : Call Clock → Call Clock
advance s = record s { world = record (s.world) { time = s.world.time + 1 } }

abbrev pub time_line : ℕ → Output
time_line t =
    printf stdout "get_time_input returns: time %ld and input %ld (input = 0 means no input)\n"
      (pos t ∷ pos 0 ∷ [])

unfoldable pub ffiget_time_input : M (Call Clock) (Unit {0})
unfolding long_bytes
ffiget_time_input = do
  s ← get
  if ltb (s.world.time + 1) (2 ^ 63) then modify advance else (λ t. fault)
  s' ← get
  copy_to 0 (long_bytes 8 (s'.world.time / 4))
  copy_to 8 (long_bytes 8 0)
  modify (print (time_line (s'.world.time / 4)))

unfoldable pub ffi0 : M (Call Clock) (Unit {0})
ffi0 = modify (print (printf stdout "Signal 0\n" []))

unfoldable pub ffi1 : M (Call Clock) (Unit {0})
ffi1 = modify (print (printf stdout "Signal 1\n" []))

unfoldable pub ffi2 : M (Call Clock) (Unit {0})
ffi2 = modify (print (printf stdout "Signal 2\n" []))

-- `sscanf(c, "%lf", …)` gives a number, or none if the string begins with none; `format` is "%.20g".
pub record Scanf : Type 0 where
  pub sscanf : List ℕ → Option (List ℕ)
  pub format : List ℕ → List ℕ

-- The loops over eight bytes, from `i` on with `8 - i` rounds left.
unfoldable pub put_bytes : {W : Type 0} → List ℕ → (i : ℕ) → M (Call W) (Unit {0})
put_bytes [] i = pure tt
put_bytes (x ∷ xs) i = do store i x; put_bytes xs (i + 1)

unfoldable pub get_bytes : {W : Type 0} → (rounds i : ℕ) → M (Call W) (List ℕ)
get_bytes zero i = pure []
get_bytes (suc rounds) i = do x ← load i; xs ← get_bytes rounds (i + 1); pure (x ∷ xs)

module _ (f : Scanf) {W : Type 0} where
  -- `garbage` is what the variable on the stack holds before `sscanf` sets it.
  unfoldable pub ffidouble_from_string :
      (garbage : List ℕ) (c : List ℕ) (alen : ℕ) → M (Call W) (Unit {0})
  ffidouble_from_string garbage c alen = do
    s ← lift (c_string c)
    assert (8 == alen)
    elim (f.sscanf s) [ none ↦ put_bytes garbage 0 | some d ↦ put_bytes d 0 ]

  -- `snprintf` writes at most 254 characters and answers how many the text has.
  unfoldable pub ffidouble_to_string : (alen : ℕ) → M (Call W) (Unit {0})
  ffidouble_to_string alen = do
    assert (256 == alen)
    d ← get_bytes 8 0
    copy_to 0 (take 254 (f.format d) ++ 0 ∷ [])
    assert (leb (length (f.format d)) 255)

-- A mark of a collection, which does not look at the bytes in use.
unfoldable pub gc_stop : (ℤ → ℤ) → M Gc (Unit {0})
gc_stop round = do
  now ← read_clock
  g ← get
  m ← add_micros round g.microsecs g.t1 now
  n ← lift (as_int (g.num_gc + 1))
  modify (λ g. record g { t2 = now; microsecs = m; num_gc = n; in_gc = 0 })

unfoldable pub gc_start : M Gc (Unit {0})
gc_start = do now ← read_clock; modify (λ g. record g { in_gc = 1; t1 = now })

unfoldable pub ffi : (ℤ → ℤ) → (c : List ℕ) (clen : ℕ) → M Gc (Unit {0})
ffi round c clen =
    if clen == 0
    then (do g ← get; if g.in_gc == 1 then gc_stop round else gc_start)
    else do put_conf round clen c; put_spaces round (30 - clen); trace_end round

abbrev pub no_memory : M Process (Unit {0})
no_memory = modify (λ p. record p {
  out =
      then_write p.out
        (printf stderr "malloc() failed to allocate sufficient CakeML heap and stack space.\n" []);
})

-- `main` once the sizes are known.
unfoldable pub boot : System → (heap_sz stack_sz : ℕ) → M Process ℕ
boot sys heap_sz stack_sz =
    if ltb heap_sz sz || ltb stack_sz sz
    then (do
      say "Too small requested heap (%lu) or stack (%lu) size in bytes.\n" (sizes heap_sz stack_sz)
      exit 3)
    else (if ltb (u64 (heap_sz + stack_sz)) 8192
        then (do
          say "Too small requested heap (%lu) + stack (%lu) size in bytes.\n"
              (sizes heap_sz stack_sz)
          exit 3)
        else elim (sys.malloc (u64 (heap_sz + stack_sz))) [
          | none ↦ (do no_memory; exit 3)
          | some base ↦ (do
            modify (λ p. record p {
              cml_heap = base;
              cml_stack = u64 (base + heap_sz);
              cml_stackend = u64 (u64 (base + heap_sz) + stack_sz);
            })
            sys.cml_main
            pure 0)
        ])

unfoldable pub main : System → Args → M Process ℕ
main sys args = do set_args args; boot sys (size_from sys.heap_env) (size_from sys.stack_env)
