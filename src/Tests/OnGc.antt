-- ===== src/Tests/OnGc.antt =====
-- Two collections and a traced call, with a clock of whole seconds.
use cakeml.Prelude.{ℕ, ◌<◌, ◌^◌, ◌+◌, ◌≡◌, refl, arith, true, false, List, [], ◌∷◌}
use cakeml.Prelude.Int.{ℤ, pos, ◌+ℤ◌, ◌-ℤ◌, ◌*ℤ◌}
use cakeml.Machine.Run.{ok, exited}
use cakeml.Machine.Buffer.{call}
use cakeml.Gc.{Timeval, Gc, initial, div_ℤ}
use cakeml.Gc.Elapsed.{instant, IsLong}
use cakeml.Gc.Accounting.{
  Fits, HasRoom, cycles, total_time, allocated, collections, collections_totals,
}
use cakeml.Exit.{cml_exit, cml_err, ffiexit}
use cakeml.Exit.Codes.{ExitsWith, cml_exit-ExitsWith, cml_err-ExitsWith, ffiexit_ends}

abbrev seconds : ℕ → Timeval
seconds n = record { sec = pos n; usec = pos 0 }

abbrev exactly : ℤ → ℤ
exactly z = z

abbrev began : Gc
began = initial seconds

abbrev used : List (ℕ × ℕ)
used = (1000, 400) ∷ (900, 300) ∷ []

small_sums : Fits (pos 0) (cycles 2 seconds)
unfolding ◌+ℤ◌ ◌-ℤ◌ ◌*ℤ◌
small_sums = (
  (omega arith, (omega arith, omega arith, omega arith, omega arith), omega arith),
  ((omega arith, (omega arith, omega arith, omega arith, omega arith), omega arith), tt),
)

room_for_bytes : HasRoom (pos 0) (pos 0) used
unfolding ◌+ℤ◌ ◌-ℤ◌
room_for_bytes =
    let l : (a : ℕ) → a < 2 ^ 63 → IsLong (pos a) = λ a h. (h, omega arith) in
    (
      (l 1000 (omega arith), l 1000 (omega arith)),
      ((l 500 (omega arith), l 1500 (omega arith)), tt),
    )

collections_totals_example :
    (g : Gc) × (collections exactly used began ≡ ok tt g)
    × (g.in_gc ≡ 0)
    × (g.num_gc ≡ 0 + 2)
    × (g.microsecs ≡ total_time (pos 0) (cycles 2 seconds))
    × (g.num_alloc_bytes ≡ allocated (pos 0) (pos 0) used)
    × (g.out ≡ [])
collections_totals_example =
    collections_totals exactly used began (λ z h. refl) refl (omega arith) small_sums room_for_bytes

-- 1000 bytes before the first collection, and 500 more before the second.
allocated_lem : allocated (pos 0) (pos 0) used ≡ pos 1500
unfolding ◌+ℤ◌ ◌-ℤ◌
allocated_lem = refl

abbrev traced : List ℕ
traced = b'g' ∷ b'o' ∷ []

-- Seven milliseconds and a half after the trace before it, over the turn of a second.
abbrev last : Timeval
last = record { sec = pos 10; usec = pos 999000 }

abbrev again : Gc
again = record began {
  has_t = true;
  last_t = last;
  clock = λ n. record { sec = pos 11; usec = pos 6500 };
}

abbrev again_now : Timeval
again_now = record { sec = pos 11; usec = pos 6500 }

seven_lem : div_ℤ (instant again_now -ℤ instant last) 1000 ≡ pos 7
unfolding ◌+ℤ◌ ◌-ℤ◌ ◌*ℤ◌
seven_lem = refl

cml_exit-ExitsWith_example : ExitsWith true 2 began (cml_exit true 2 began)
cml_exit-ExitsWith_example = cml_exit-ExitsWith true 2 began

cml_err_three : ExitsWith false 3 began (cml_err false 3 began)
cml_err_three = cml_err-ExitsWith false 3 began

ffiexit_ends_example : ffiexit 1 (call (42 ∷ []) began) ≡ exited 42 (call (42 ∷ []) began)
ffiexit_ends_example = ffiexit_ends {W = Gc} (42 ∷ []) began
