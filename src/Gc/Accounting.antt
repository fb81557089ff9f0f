-- ===== src/Gc/Accounting.antt =====
-- What the marks of collections add up to.
use cakeml.Prelude.{
  ℕ, zero, suc, ◌+◌, ◌^◌, ◌<◌, ◌≡◌, refl, arith, List, [], ◌∷◌, length, lt→ltb, ◌==◌, true, false,
}
use cakeml.Prelude.Int.{ℤ, ◌+ℤ◌, ◌-ℤ◌}
use cakeml.Machine.Word.{signed64}
use cakeml.Machine.Run.{M, ok, pure, ◌>>◌}
use cakeml.Gc.{Timeval, Gc, gc_stop, gc_start, ffi}
use cakeml.Gc.Elapsed.{
  elapsed, IsSmall, IsRounding, Measurable, IsLong, as_long_lem, add_micros-elapsed,
}

-- The clock at the start and at the end of each of the next `n` collections.
abbrev pub cycles : ℕ → (ℕ → Timeval) → List (Timeval × Timeval)
cycles zero clock = []
cycles (suc n) clock = (clock 0, clock 1) ∷ cycles n (λ k. clock (k + 1 + 1))

abbrev pub total_time : ℤ → List (Timeval × Timeval) → ℤ
total_time m [] = m
total_time m ((s, t) ∷ r) = total_time (m +ℤ elapsed s t) r

-- No intermediate value of the sum is too large for a `double`.
abbrev pub Fits : ℤ → List (Timeval × Timeval) → Type 0
Fits m [] = Unit
Fits m ((s, t) ∷ r) =
    (IsSmall m × Measurable s t × IsSmall (m +ℤ elapsed s t)) × Fits (m +ℤ elapsed s t) r

-- Bytes allocated: what each collection finds in use beyond what the one before it left.
abbrev pub allocated : ℤ → ℤ → List (ℕ × ℕ) → ℤ
allocated m prev [] = m
allocated m prev ((s, e) ∷ r) = allocated (m +ℤ (signed64 s -ℤ prev)) (signed64 e) r

-- No intermediate value of that sum is too large for a `long`.
abbrev pub HasRoom : ℤ → ℤ → List (ℕ × ℕ) → Type 0
HasRoom m prev [] = Unit
HasRoom m prev ((s, e) ∷ r) =
    (IsLong (signed64 s -ℤ prev) × IsLong (m +ℤ (signed64 s -ℤ prev)))
    × HasRoom (m +ℤ (signed64 s -ℤ prev)) (signed64 e) r

module _ (round : ℤ → ℤ) where
  -- Collections one after the other, each marked by the bytes in use at its start and at its end.
  abbrev pub collections : List (ℕ × ℕ) → M Gc (Unit {0})
  collections [] = pure tt
  collections ((s, e) ∷ r) = ffi round s [] 0 >> (ffi round e [] 0 >> collections r)

  abbrev after_start : ℤ → Gc → Gc
  after_start occ g = record g {
    clock = (λ n. g.clock (n + 1));
    in_gc = 1;
    t1 = g.clock 0;
    num_alloc_bytes = g.num_alloc_bytes +ℤ (occ -ℤ g.prev_occ);
  }

  abbrev after_stop : ℤ → Gc → Gc
  after_stop occ g = record g {
    clock = (λ n. g.clock (n + 1));
    t2 = g.clock 0;
    microsecs = g.microsecs +ℤ elapsed g.t1 (g.clock 0);
    num_gc = g.num_gc + 1;
    in_gc = 0;
    prev_occ = occ;
  }

  ffi_start :
      (s : ℕ) (g : Gc)
      → g.in_gc ≡ 0
      → IsLong (signed64 s -ℤ g.prev_occ)
      → IsLong (g.num_alloc_bytes +ℤ (signed64 s -ℤ g.prev_occ))
      → ffi round s [] 0 g ≡ ok tt (after_start (signed64 s) g)
  unfolding ffi gc_start
  ffi_start s g idle grown total =
      let test : (g.in_gc == 1) ≡ false = ground arith in
      rw (
        test,
        as_long_lem (signed64 s -ℤ g.prev_occ) grown,
        as_long_lem (g.num_alloc_bytes +ℤ (signed64 s -ℤ g.prev_occ)) total,
      )

  ffi_stop :
      (e : ℕ) (g : Gc)
      → IsRounding round
      → g.in_gc ≡ 1
      → g.num_gc + 1 < 2 ^ 31
      → IsSmall g.microsecs
      → Measurable g.t1 (g.clock 0)
      → IsSmall (g.microsecs +ℤ elapsed g.t1 (g.clock 0))
      → ffi round e [] 0 g ≡ ok tt (after_stop (signed64 e) g)
  unfolding ffi gc_stop
  ffi_stop e g exact busy count small fits sum =
      let now = record g { clock = λ n. g.clock (n + 1) } in
      let test : (g.in_gc == 1) ≡ true = ground arith in
      rw (
        test,
        add_micros-elapsed round exact g.t1 (g.clock 0) fits g.microsecs now small sum,
        lt→ltb (g.num_gc + 1) (2 ^ 31) count,
      )

  -- After a number of whole collections, begun outside of one: with a rounding that keeps integers up
  -- to 2 ^ 53, a clock whose differences and sums stay below that, a number of collections that fits
  -- an `int` and numbers of bytes that fit a `long`, the calls return; the counters say how many
  -- collections there were, how long they took together and how many bytes were allocated between
  -- them, and nothing is printed.
  pub collections_totals :
      (l : List (ℕ × ℕ)) (g : Gc)
      → IsRounding round
      → g.in_gc ≡ 0
      → g.num_gc + length l < 2 ^ 31
      → Fits g.microsecs (cycles (length l) g.clock)
      → HasRoom g.num_alloc_bytes g.prev_occ l
      → (g' : Gc) × (collections l g ≡ ok tt g')
        × (g'.in_gc ≡ 0)
        × (g'.num_gc ≡ g.num_gc + length l)
        × (g'.microsecs ≡ total_time g.microsecs (cycles (length l) g.clock))
        × (g'.num_alloc_bytes ≡ allocated g.num_alloc_bytes g.prev_occ l)
        × (g'.out ≡ g.out)
  collections_totals [] g exact idle count fits room =
      (g, refl, idle, omega arith, refl, refl, refl)
  collections_totals ((s, e) ∷ r) g exact idle count fits room =
      let g1 = after_start (signed64 s) g in
      let g2 = after_stop (signed64 e) g1 in
      let (g', runs, idle', number, time, bytes, quiet) =
        collections_totals r g2 exact refl (omega arith) fits.1 room.1 in
      (
        g',
        rw (
          ffi_start s g idle room.0.0 room.0.1,
          ffi_stop e g1 exact refl (omega arith) fits.0.0 fits.0.1 fits.0.2,
          runs,
        ),
        idle',
        omega arith,
        time,
        bytes,
        quiet,
      )
