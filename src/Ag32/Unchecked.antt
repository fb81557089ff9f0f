-- ===== src/Ag32/Unchecked.antt =====
-- What the copy for ag32 does without the assertions, and how its programs end.
use cakeml.Prelude.{
  ℕ, ◌++◌, ◌∙◌, sym, ap, append-nil, ◌⊎◌, ◌≢◌, inl, inr, if◌then◌else◌, suc, ◌+◌, ◌*◌, ◌<◌, ◌≡◌,
  refl, arith, Bool, true, false, some, List, [], ◌∷◌, length, leb, lt→leb, ltb, lt→ltb, ◌==◌,
}
use cakeml.Machine.Word.{IsByte}
use cakeml.Machine.Run.{exited, aborted, fault}
use cakeml.Machine.Buffer.{call, load}
use cakeml.Machine.Buffer.Laws.{copy_to_outside}
use cakeml.Marshal.{byte2_to_int, byte8_to_int}
use cakeml.Marshal.Words.{join2_lem}
use cakeml.Gc.{Gc}
use cakeml.Prelude.Int.{pos}
use cakeml.Machine.Output.{Output, stderr, printf}
use cakeml.Exit
use cakeml.Exit.Codes.{ffiexit_ends}
use cakeml.Files
use cakeml.Files.{basis, byte2_at}
use cakeml.Files.Syscalls.{Os}
use cakeml.Ag32.{report, cml_exit, ffiread, ffiexit}

abbrev pub first_or : ℕ → List ℕ → ℕ
first_or n [] = n
first_or n (x ∷ rest) = x

module _ (os : Os) where
  open os use {World}

  -- A call to read more bytes than the array, of two bytes or more, has room for, with a
  -- configuration of eight bytes, and of which the system gives all: the basis library stops
  -- at an assertion with nothing changed, the copy for ag32 writes over the end of the array.
  pub read_overrun :
      (c : List ℕ) (fd n1 n0 : ℕ) (a : List ℕ) (w : World)
      → length c ≡ 8
      → byte8_to_int c 0 ≡ some fd
      → IsByte n1
      → IsByte n0
      → 2 + length a < 4 + (n1 * 256 + n0)
      → length (os.read fd (n1 * 256 + n0) w).0.1 ≡ n1 * 256 + n0
      → (Files.ffiread os basis c (length c) (2 + length a) (call (n1 ∷ n0 ∷ a) w)
          ≡ aborted (call (n1 ∷ n0 ∷ a) w))
        × (ffiread os c (length c) (2 + length a) (call (n1 ∷ n0 ∷ a) w) ≡ fault)
  unfolding Files.ffiread ffiread byte2_at byte2_to_int
  read_overrun c fd n1 n0 a w eight conf h1 h0 over all =
      let n = n1 * 256 + n0 in
      let answer = os.read fd n w in
      let c8 : (length c == 8) ≡ true = ground arith in
      let long : leb (n + 4) (2 + length a) ≡ false = lt→leb (n + 4) (2 + length a) (omega arith) in
      (
        rw (c8, conf, join2_lem n1 n0 h1 h0, long),
        rw (
          conf,
          join2_lem n1 n0 h1 h0,
          copy_to_outside 4 answer.0.1 (n1 ∷ n0 ∷ a) answer.1 (omega arith),
        ),
      )

abbrev pub counters : Bool → Gc → List Output
counters true g =
    printf stderr "GCNum: %d, GCTime(us): %ld\n" (pos g.num_gc ∷ g.microsecs ∷ []) ∷ []
counters false g = []

counters-if :
    (debug : Bool) (g : Gc)
    → counters debug g ≡ (
        if debug
        then printf stderr "GCNum: %d, GCTime(us): %ld\n" (pos g.num_gc ∷ g.microsecs ∷ []) ∷ []
        else [])
counters-if true g = refl
counters-if false g = refl

report-counters :
    (debug : Bool) (g : Gc) → report debug g ≡ record g { out = g.out ++ counters debug g }
report-counters true g = refl
report-counters false g = ap (λ t. record g { out = t }) (sym (append-nil g.out))

ffiexit-report :
    (debug : Bool) (a : List ℕ) (g : Gc)
    → ffiexit debug (length a) (call a g) ≡ exited (first_or 1 a) (call a (report debug g))
unfolding ffiexit cml_exit load
ffiexit-report debug [] g = refl
ffiexit-report debug (x ∷ a) g =
    let some_byte : ltb 0 (suc (length a)) ≡ true = lt→ltb 0 (suc (length a)) (omega arith) in
    rw some_byte

basis_exit :
    (a : List ℕ) (g : Gc)
    → ((length a ≡ 1) × (Exit.ffiexit (length a) (call a g) ≡ exited (first_or 1 a) (call a g)))
      ⊎ ((length a ≢ 1) × (Exit.ffiexit (length a) (call a g) ≡ aborted (call a g)))
basis_exit [] g = inr (λ e. omega (arith, e), ffiexit_ends [] g)
basis_exit (x ∷ []) g = inl (refl, ffiexit_ends (x ∷ []) g)
basis_exit (x ∷ y ∷ a) g = inr (λ e. omega (arith, e), ffiexit_ends (x ∷ y ∷ a) g)

-- `ffiexit` of the copy for ag32 never returns: the first byte of the array is the exit code, however
-- long the array is, and an empty array stands for the code 1. One line with the counters of the
-- collector is printed with DEBUG_FFI, nothing without, and nothing else changes. On the same array
-- `ffiexit` of the basis library exits with the same code if the array has one byte, and stops at an
-- assertion if not.
pub ffiexit_exits :
    (debug : Bool) (a : List ℕ) (g : Gc)
    → (code : ℕ) × (line : List Output) × (ffiexit debug (length a) (call a g)
        ≡ exited code (call a (record g { out = g.out ++ line })))
      × (code ≡ first_or 1 a)
      × (line ≡ (
          if debug
          then printf stderr "GCNum: %d, GCTime(us): %ld\n" (pos g.num_gc ∷ g.microsecs ∷ []) ∷ []
          else []))
      × (((length a ≡ 1) × (Exit.ffiexit (length a) (call a g) ≡ exited code (call a g)))
          ⊎ ((length a ≢ 1) × (Exit.ffiexit (length a) (call a g) ≡ aborted (call a g))))
ffiexit_exits debug a g = (
  first_or 1 a,
  counters debug g,
  ffiexit-report debug a g ∙ ap (λ t. exited (first_or 1 a) (call a t)) (report-counters debug g),
  refl,
  counters-if debug g,
  basis_exit a g,
)
