-- ===== src/Pancake/Time.antt =====
-- The clock of pancake/temp/basis_ffi.c: what timed programs read from `ffiget_time_input`.
use cakeml.Prelude.{
  ℕ, zero, suc, ◌+◌, ◌*◌, ◌/◌, ◌^◌, ◌≤◌, ◌<◌, ◌≡◌, refl, sym, ap, ◌∙◌, arith, List, [], ◌∷◌, ◌++◌,
  length, length-append, length-drop, take, drop, lt→ltb,
}
use cakeml.Machine.Run.{M, ok, pure, ◌>>◌}
use cakeml.Machine.Buffer.{Call, call, overwrite}
use cakeml.Machine.Buffer.Laws.{copy_to_lem, overwrite-append, overwrite_front, length-overwrite}
use cakeml.Machine.Output.{Output, then_write}
use cakeml.Pancake.{Clock, time_line, long_bytes, ffiget_time_input}

-- The number that bytes in memory stand for.
abbrev pub long_of : List ℕ → ℕ
long_of [] = 0
long_of (x ∷ xs) = x + long_of xs * 256

long_bytes_back : (n : ℕ) → n < 2 ^ 63 → long_of (long_bytes 8 n) ≡ n
unfolding long_bytes
long_bytes_back n h = omega arith

length-long_bytes : (k n : ℕ) → length (long_bytes k n) ≡ k
unfolding long_bytes
length-long_bytes zero n = refl
length-long_bytes (suc k) n = ap suc (length-long_bytes k (n / 256))

abbrev pub at_time : ℕ → List Output → Clock
at_time t out = record { time = t; out = out }

-- The array after a call at time `t`.
abbrev pub input_at : ℕ → List ℕ → List ℕ
input_at t a = (long_bytes 8 (t / 4) ++ long_bytes 8 0) ++ drop 16 a

-- While the counter has room and the array holds two numbers of eight bytes, a call adds one to the
-- counter, puts a quarter of it and 0 at the start of the array, leaves the rest of the array, and
-- prints one line.
pub time_input_lem :
    (t : ℕ) (out : List Output) (a : List ℕ)
    → t + 1 < 2 ^ 63
    → 16 ≤ length a
    → ffiget_time_input (call a (at_time t out))
      ≡ ok tt
          (call (input_at (t + 1) a) (at_time (t + 1) (then_write out (time_line ((t + 1) / 4)))))
unfolding ffiget_time_input
time_input_lem t out a room size =
    let q = (t + 1) / 4 in
    let first = long_bytes 8 q in
    let second = long_bytes 8 0 in
    let w = at_time (t + 1) out in
    let n1 = length-long_bytes 8 q in
    let n2 = length-long_bytes 8 0 in
    let both : length (first ++ second) ≡ 16 = omega (arith, length-append first second) in
    let shape : overwrite 8 second (overwrite 0 first a) ≡ (first ++ second) ++ drop 16 a =
      ap (λ (k : ℕ). overwrite (0 + k) second (overwrite 0 first a)) (sym n1)
      ∙ overwrite-append 0 first second a
      ∙ overwrite_front (first ++ second) a (omega arith)
      ∙ ap (λ (k : ℕ). (first ++ second) ++ drop k a) both in
    rw (
      lt→ltb (t + 1) (2 ^ 63) room,
      copy_to_lem 0 first a w (omega arith),
      copy_to_lem 8 second (overwrite 0 first a) w (omega (arith, length-overwrite 0 first a)),
      shape,
    )

length-input_at : (t : ℕ) (a : List ℕ) → 16 ≤ length a → length (input_at t a) ≡ length a
length-input_at t a h =
    let first = long_bytes 8 (t / 4) in
    let second = long_bytes 8 0 in
    omega (
      arith,
      length-append (first ++ second) (drop 16 a),
      length-append first second,
      length-long_bytes 8 (t / 4),
      length-long_bytes 8 0,
      length-drop 16 a,
    )

-- One call after the other on the same array.
abbrev pub polls : ℕ → M (Call Clock) (Unit {0})
polls zero = pure tt
polls (suc n) = ffiget_time_input >> polls n

-- The two numbers that a program reads from the array.
abbrev pub time_of : List ℕ → ℕ
time_of a = long_of (take 8 a)

abbrev pub input_of : List ℕ → ℕ
input_of a = long_of (take 8 (drop 8 a))

input_at_read :
    (t : ℕ) (a : List ℕ)
    → t < 2 ^ 63
    → (time_of (input_at t a) ≡ t / 4) × (input_of (input_at t a) ≡ 0)
unfolding long_bytes
input_at_read t a h =
    (unfold long_bytes in long_bytes_back (t / 4) (omega arith), long_bytes_back 0 (omega arith))

-- While the counter has room and the array holds two numbers of eight bytes, any number of calls on
-- one array, at least one, return: the program then reads a quarter of the counter as the time, and 0
-- as the input; the array keeps its length, and the counter has moved by one for each call.
pub polls_read :
    (n t : ℕ) (out : List Output) (a : List ℕ)
    → t + suc n < 2 ^ 63
    → 16 ≤ length a
    → (a' : List ℕ) × (out' : List Output) × (polls (suc n) (call a (at_time t out))
        ≡ ok tt (call a' (at_time (t + suc n) out')))
      × (time_of a' ≡ (t + suc n) / 4)
      × (input_of a' ≡ 0)
      × (length a' ≡ length a)
      × (length out' ≡ length out + suc n)
polls_read zero t out a room size = (
  input_at (t + 1) a,
  then_write out (time_line ((t + 1) / 4)),
  rw (time_input_lem t out a room size) refl,
  (input_at_read (t + 1) a room).0,
  (input_at_read (t + 1) a room).1,
  length-input_at (t + 1) a size,
  length-append out _,
)
polls_read (suc n) t out a room size =
    let b = input_at (t + 1) a in
    let o = then_write out (time_line ((t + 1) / 4)) in
    let same = length-input_at (t + 1) a size in
    let (a', out', runs, time, input, len, lines) =
      polls_read n (t + 1) o b (omega arith) (omega arith) in
    let moved : t + 1 + suc n ≡ t + suc (suc n) = omega arith in
    (
      a',
      out',
      rw (time_input_lem t out a (omega arith) size)
          (runs ∙ ap (λ (k : ℕ). ok tt (call a' (at_time k out'))) moved),
      time ∙ ap (λ (k : ℕ). k / 4) moved,
      input,
      len ∙ same,
      omega (arith, length-append out (time_line ((t + 1) / 4) ∷ [])),
    )
