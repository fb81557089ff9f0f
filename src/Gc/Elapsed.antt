-- ===== src/Gc/Elapsed.antt =====
-- The time between two answers of the clock, as the C computes it and as it is.
use cakeml.Prelude.{◌+◌, ◌*◌, ◌^◌, ◌≤◌, ◌<◌, ◌≡◌, arith, some}
use cakeml.Prelude.Int.{ℤ, pos_part, neg_part, ◌+ℤ◌, ◌-ℤ◌, ◌*ℤ◌, +ℤ_parts, -ℤ_parts, eq_of_parts}
use cakeml.Machine.Word.{as_long}
use cakeml.Machine.Run.{ok}
use cakeml.Gc.{Timeval, Gc, million, micros, add_micros}

-- Microseconds since the epoch, and between two instants.
abbrev pub instant : Timeval → ℤ
instant t = t.usec +ℤ t.sec *ℤ million

abbrev pub elapsed : Timeval → Timeval → ℤ
elapsed s t = instant t -ℤ instant s

-- The integers that a `double` holds exactly.
abbrev pub IsSmall : ℤ → Type 0
IsSmall z = pos_part z + neg_part z ≤ 2 ^ 53

abbrev pub IsRounding : (ℤ → ℤ) → Type 0
IsRounding round = (z : ℤ) → IsSmall z → round z ≡ z

-- No intermediate value of the difference is too large for a `double`.
abbrev pub Measurable : Timeval → Timeval → Type 0
Measurable s t =
    IsSmall (t.usec -ℤ s.usec)
    × IsSmall (t.sec -ℤ s.sec)
    × IsSmall ((t.sec -ℤ s.sec) *ℤ million)
    × IsSmall (elapsed s t)

-- The range of a `long`.
abbrev pub IsLong : ℤ → Type 0
IsLong z = (pos_part z < 2 ^ 63) × (neg_part z ≤ 2 ^ 63)

pub as_long_lem : (z : ℤ) → IsLong z → as_long z ≡ some z
as_long_lem z h = ground arith

pub as_long_small : (z : ℤ) → IsSmall z → as_long z ≡ some z
as_long_small z h = as_long_lem z (omega arith, omega arith)

millions_parts :
    (a : ℤ)
    → pos_part (a *ℤ million) + neg_part a * 1000000
      ≡ neg_part (a *ℤ million) + pos_part a * 1000000
unfolding ◌*ℤ◌
millions_parts a = ground arith

parts_elapsed : (s t : Timeval) → (t.usec -ℤ s.usec) +ℤ (t.sec -ℤ s.sec) *ℤ million ≡ elapsed s t
parts_elapsed s t =
    let us = t.usec -ℤ s.usec in
    let ss = t.sec -ℤ s.sec in
    eq_of_parts _ _ (
      omega (
        arith,
        +ℤ_parts us (ss *ℤ million),
        -ℤ_parts t.usec s.usec,
        -ℤ_parts t.sec s.sec,
        millions_parts ss,
        millions_parts t.sec,
        millions_parts s.sec,
        +ℤ_parts t.usec (t.sec *ℤ million),
        +ℤ_parts s.usec (s.sec *ℤ million),
        -ℤ_parts (instant t) (instant s),
      ))

module _ (round : ℤ → ℤ) (exact : IsRounding round) (s t : Timeval) (fits : Measurable s t) where
  -- The C computes the time between the two, whichever is the later.
  pub micros-elapsed : (g : Gc) → micros round s t g ≡ ok (elapsed s t) g
  unfolding micros
  micros-elapsed g =
      let whole : IsSmall ((t.usec -ℤ s.usec) +ℤ (t.sec -ℤ s.sec) *ℤ million) =
        rw (parts_elapsed s t) fits.3 in
      rw (
        as_long_small (t.usec -ℤ s.usec) fits.0,
        as_long_small (t.sec -ℤ s.sec) fits.1,
        exact (t.usec -ℤ s.usec) fits.0,
        exact (t.sec -ℤ s.sec) fits.1,
        exact ((t.sec -ℤ s.sec) *ℤ million) fits.2,
        parts_elapsed s t,
        exact (elapsed s t) fits.3,
      )

  pub add_micros-elapsed :
      (m : ℤ) (g : Gc)
      → IsSmall m
      → IsSmall (m +ℤ elapsed s t)
      → add_micros round m s t g ≡ ok (m +ℤ elapsed s t) g
  unfolding add_micros
  add_micros-elapsed m g small sum = rw (
    micros-elapsed g,
    exact m small,
    exact (m +ℤ elapsed s t) sum,
    as_long_small (m +ℤ elapsed s t) sum,
  )
