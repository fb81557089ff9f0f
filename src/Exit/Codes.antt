-- ===== src/Exit/Codes.antt =====
-- Exit codes and messages, on every argument.
use cakeml.Prelude.{
  ℕ, zero, suc, ◌≡◌, ◌↔◌, refl, sym, ap, ◌∙◌, arith, Bool, true, false, not, List, [], ◌∷◌, ◌++◌,
  append_assoc, append-nil, length, length-append, Bool-cases, inl, inr, ◌==◌, if◌then◌else◌,
}
use cakeml.Machine.Run.{Run, exited, aborted}
use cakeml.Machine.Buffer.{call, load}
use cakeml.Machine.Output.{Output, stderr, printf}
use cakeml.Gc.{Gc}
use cakeml.Prelude.Int.{pos}
use cakeml.Exit.{exhausted, gc_report, cml_exit, cml_err, not_ready, ffiexit}

-- The state with more output.
abbrev pub printed : List Output → Gc → Gc
printed os g = record g { out = g.out ++ os }

-- `exit` is called with the argument, after messages that change nothing else; there are none
-- exactly if the argument is 0 and DEBUG_FFI is off.
pub record ExitsWith (debug : Bool) (arg : ℕ) (g : Gc) (r : Run Gc (Unit {0})) : Type 0 where
  pub text : List Output
  pub exits : r ≡ exited arg (printed text g)
  pub silent : (text ≡ []) ↔ ((debug ≡ false) × (arg ≡ 0))

printed-printed : (xs ys : List Output) (g : Gc) → printed ys (printed xs g) ≡ printed (xs ++ ys) g
printed-printed xs ys g = ap (λ t. record g { out = t }) (append_assoc g.out xs ys)

printed-nil : (g : Gc) → g ≡ printed [] g
printed-nil g = ap (λ t. record g { out = t }) (sym (append-nil g.out))

-- Some text leads from `g` to `g'`.
Prints : Gc → Gc → Type 0
Prints g g' = (text : List Output) × (g' ≡ printed text g)

if-Prints :
    (b : Bool) (o : Output) (g g' : Gc)
    → Prints g g'
    → Prints g (if b then printed (o ∷ []) g else g')
unfolding Prints
if-Prints true o g g' p = (o ∷ [], refl)
if-Prints false o g g' p = p

exhausted-Prints : (arg : ℕ) (g : Gc) → Prints g (exhausted arg g)
exhausted-Prints arg g =
    if-Prints (arg == 1) _ g _ (if-Prints (arg == 2) _ g g (unfold Prints in ([], printed-nil g)))

abbrev nonzero : Output
nonzero = printf stderr "Program exited with nonzero exit code.\n" []

nonzero-Prints :
    (arg : ℕ) (g : Gc) → Prints g (if not (arg == 0) then printed (nonzero ∷ []) g else g)
nonzero-Prints arg g = if-Prints (not (arg == 0)) nonzero g g (unfold Prints in ([], printed-nil g))

append_last-ne-nil : (xs ys : List Output) (y : Output) → xs ++ (ys ++ y ∷ []) ≡ [] → ⊥
append_last-ne-nil xs ys y e =
    omega (arith, ap length e, length-append xs (ys ++ y ∷ []), length-append ys (y ∷ []))

-- The report under DEBUG_FFI ends with two lines.
gc_report_prints :
    (arg : ℕ) (g : Gc)
    → (text : List Output) × (last : Output) × (gc_report arg g ≡ printed (text ++ last ∷ []) g)
unfolding gc_report Prints
gc_report_prints arg g =
    let (text, e) = exhausted-Prints arg g in
    let counts = printf stderr "GCNum: %d, GCTime(us): %ld\n" (pos g.num_gc ∷ g.microsecs ∷ []) in
    let bytes = printf stderr "Total allocated heap data: %ld bytes\n" (g.num_alloc_bytes ∷ []) in
    (
      text ++ counts ∷ [],
      bytes,
      ap (λ (x : Gc). printed (bytes ∷ []) (printed (counts ∷ []) x)) e
          ∙ ap (printed (bytes ∷ [])) (printed-printed text (counts ∷ []) g)
          ∙ printed-printed (text ++ counts ∷ []) (bytes ∷ []) g,
    )

-- `cml_exit` ends the program with its argument as the exit code, whatever it is, after messages that
-- change nothing else; there are none exactly if the argument is 0 and DEBUG_FFI is off.
pub cml_exit-ExitsWith :
    (debug : Bool) (arg : ℕ) (g : Gc) → ExitsWith debug arg g (cml_exit debug arg g)
unfolding cml_exit Prints
cml_exit-ExitsWith true arg g =
    let g' = if not (arg == 0) then printed (nonzero ∷ []) g else g in
    let (first, e) = nonzero-Prints arg g in
    let (text, last, e') = gc_report_prints arg g' in
    record {
      text = first ++ (text ++ last ∷ []);
      exits =
          ap (exited arg)
            (e' ∙ ap (printed (text ++ last ∷ [])) e ∙ printed-printed first (text ++ last ∷ []) g);
      silent = (λ h. absurd (append_last-ne-nil first text last h), λ h. cc);
    }
cml_exit-ExitsWith false zero g = record {
  text = [];
  exits = ap (exited 0) (printed-nil g);
  silent = (λ h. (refl, refl), λ h. refl);
}
cml_exit-ExitsWith false (suc n) g =
    let test : (suc n == 0) ≡ false = ground arith in
    record {
      text = nonzero ∷ [];
      exits = rw test;
      silent = (λ h. absurd (cc), λ h. absurd (omega (arith, h.1)));
    }

-- `cml_err` ends the program with its argument as the exit code, whatever it is, after messages that
-- change nothing else; there are none exactly if the argument is 0 and DEBUG_FFI is off.
pub cml_err-ExitsWith :
    (debug : Bool) (arg : ℕ) (g : Gc) → ExitsWith debug arg g (cml_err debug arg g)
unfolding cml_err
cml_err-ExitsWith debug arg g = elim (Bool-cases (arg == 3)) [
  | inl three ↦
      let line = printf stderr not_ready [] in
      let r = cml_exit-ExitsWith debug arg (printed (line ∷ []) g) in
      rw three (record {
        text = line ∷ r.text;
        exits = r.exits ∙ ap (exited arg) (printed-printed (line ∷ []) r.text g);
        silent = (λ h. absurd (cc), λ h. absurd (ground arith));
      })
  | inr other ↦ rw other (cml_exit-ExitsWith debug arg g)
]

-- The array of a call to `ffiexit` has to have one byte, which is the exit code; with any other
-- length the assertion stops the program. No call returns.
pub ffiexit_ends :
    {W : Type 0} (a : List ℕ) (w : W)
    → ffiexit (length a) (call a w) ≡ (elim a [
      | [] ↦ aborted (call [] w)
      | x ∷ rest ↦ elim rest [
        | [] ↦ exited x (call (x ∷ []) w)
        | y ∷ more ↦ aborted (call (x ∷ y ∷ more) w)
      ]
    ])
unfolding ffiexit load
ffiexit_ends [] w = refl
ffiexit_ends (x ∷ []) w = refl
ffiexit_ends (x ∷ y ∷ a) w = ground arith
