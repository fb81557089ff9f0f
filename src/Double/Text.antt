-- ===== src/Double/Text.antt =====
-- Doubles from and to text.
use cakeml.Prelude.{
  ℕ, zero, suc, ◌+◌, ◌≤◌, ◌<◌, ◌≡◌, ◌≢◌, refl, ap, ◌∙◌, arith, false, some, List, [], ◌∷◌, ◌++◌,
  length, take, drop, set, get_elem?, All, length-append, append_assoc, ◌==◌, if◌then◌else◌,
  Bool-cases, inl, inr,
}
use cakeml.Machine.Word.{IsByte}
use cakeml.Machine.Run.{ok, fault, and_then}
use cakeml.Machine.Buffer.{call, c_string, store, copy_to, overwrite}
use cakeml.Machine.Buffer.Laws.{
  copy_from_lem, copy_to_lem, copy_to_outside, overwrite_front, store_lem,
}
use cakeml.Double.{Floats, IsFloats, ffidouble_from_string, ffidouble_to_string}

-- A string is read up to its 0, whatever follows.
pub c_string-terminated :
    (s rest : List ℕ) → All (λ x. (0 < x) × IsByte x) s → c_string (s ++ 0 ∷ rest) ≡ some s
unfolding c_string
c_string-terminated [] rest h = refl
c_string-terminated (zero ∷ s) rest h = absurd (omega arith)
c_string-terminated (suc x ∷ s) rest h = rw (c_string-terminated s rest h.1)

pub take_short : (n : ℕ) (xs : List ℕ) → length xs ≤ n → take n xs ≡ xs
take_short zero [] h = refl
take_short zero (x ∷ xs) h = absurd (omega arith)
take_short (suc n) [] h = refl
take_short (suc n) (x ∷ xs) h = ap (λ t. x ∷ t) (take_short n xs (omega arith))

char_at_end : (s rest : List ℕ) → get_elem? (s ++ 0 ∷ rest) (length s) ≡ some 0
char_at_end [] rest = refl
char_at_end (x ∷ s) rest = char_at_end s rest

char_inside :
    (s rest : List ℕ) (k : ℕ)
    → All (λ x. (0 < x) × IsByte x) s
    → k < length s
    → (y : ℕ) × (get_elem? (s ++ 0 ∷ rest) k ≡ some y) × (0 < y)
char_inside [] rest k h lt = absurd (omega arith)
char_inside (x ∷ s) rest zero h lt = (x, refl, h.0.0)
char_inside (x ∷ s) rest (suc k) h lt = char_inside s rest k h.1 (omega arith)

status_then_copy :
    {W : Type 0} (a ys : List ℕ) (w : W)
    → length a < 1 + length ys
    → and_then (store 0 0 (call a w)) (λ _. copy_to 1 ys) ≡ fault
unfolding store
status_then_copy [] ys w h = refl
status_then_copy (x ∷ a) ys w h =
    rw (store_lem 0 0 (x ∷ a) w (omega arith)) (copy_to_outside 1 ys (0 ∷ a) w (omega arith))

module _ (f : Floats) (laws : IsFloats f) {W : Type 0} where
  -- Under the assumptions on floating-point operations, in an array of 256 bytes, as the basis library
  -- passes, `ffidouble_toString` leaves the text of
  -- the number at the start of the array, where it reads back as a string, and the rest behind its 0.
  pub to_string_reads_back :
      (a : List ℕ) (w : W)
      → length a ≡ 256
      → let text = f.print (take 8 a) in
        (out : List ℕ) × (ffidouble_to_string f (call a w) ≡ ok tt (call out w))
        × (out ≡ text ++ 0 ∷ drop (length text + 1) a)
        × (c_string out ≡ some text)
  unfolding ffidouble_to_string
  to_string_reads_back a w size =
      let text = f.print (take 8 a) in
      let short = laws.print_short (take 8 a) in
      let n : length (text ++ 0 ∷ []) ≡ length text + 1 =
        omega (arith, length-append text (0 ∷ [])) in
      let shape : overwrite 0 (text ++ 0 ∷ []) a ≡ text ++ 0 ∷ drop (length text + 1) a =
        overwrite_front (text ++ 0 ∷ []) a (omega arith)
        ∙ ap (λ (k : ℕ). (text ++ 0 ∷ []) ++ drop k a) n
        ∙ append_assoc text (0 ∷ []) (drop (length text + 1) a) in
      (
        text ++ 0 ∷ drop (length text + 1) a,
        rw (copy_from_lem 0 8 a w (omega arith), take_short 254 text (omega arith))
            (copy_to_lem 0 (text ++ 0 ∷ []) a w (omega arith) ∙ ap (λ t. ok tt (call t w)) shape),
        refl,
        c_string-terminated text _ (laws.print_text (take 8 a)),
      )

  -- Under the assumptions on floating-point operations, on a terminated string of bytes and an array of
  -- at least nine bytes, `ffidouble_fromString` accepts the string exactly if `strtod` takes it up to its end with no range
  -- error: then the array holds 0 and the number, else its first byte is 1; the rest is unchanged.
  pub from_string_branches :
      (s rest a : List ℕ) (w : W)
      → All (λ x. (0 < x) × IsByte x) s
      → 9 ≤ length a
      → let d = f.strtod s in
        let run = ffidouble_from_string f (s ++ 0 ∷ rest) (call a w) in
        run ≡ (
          if d.out_of_range
          then ok tt (call (set a 0 1) w)
          else (if d.consumed == length s
              then ok tt (call (0 ∷ d.value ++ drop 9 a) w)
              else ok tt (call (set a 0 1) w)))
  unfolding ffidouble_from_string
  from_string_branches s rest [] w text room = absurd (omega arith)
  from_string_branches s rest (x ∷ a) w text room =
      let d = f.strtod s in
      let c = s ++ 0 ∷ rest in
      let found = c_string-terminated s rest text in
      let value = laws.strtod_double s in
      let one : store 0 1 (call (x ∷ a) w) ≡ ok tt (call (1 ∷ a) w) =
        store_lem 0 1 (x ∷ a) w (omega arith) in
      elim (Bool-cases (d.out_of_range)) [
        | inl range ↦ rw (found, range) one
        | inr fine ↦ elim (Bool-cases (d.consumed == length s)) [
          | inl same ↦
              let whole : d.consumed ≡ length s = ground arith in
              let end : get_elem? c d.consumed ≡ some 0 = rw whole (char_at_end s rest) in
              rw (found, fine, end, same, store_lem 0 0 (x ∷ a) w (omega arith))
                (copy_to_lem 1 d.value (0 ∷ a) w (omega arith)
                  ∙ ap (λ t. ok tt (call (0 ∷ t) w))
                      (overwrite_front d.value a (omega arith)
                        ∙ ap (λ (n : ℕ). d.value ++ drop n a) value.0))
          | inr part ↦
              let differ : d.consumed ≢ length s = ground arith in
              let (y, at, pos) =
                char_inside s rest d.consumed text (omega (arith, laws.strtod_part s)) in
              let test : (y == 0) ≡ false = ground arith in rw (found, fine, at, test, part) one
        ]
      ]

  -- Nothing checks the room for the eight bytes behind the status byte: in an array of at most eight
  -- bytes, as the model in DoubleFFIScript.sml has it, a number that `strtod` takes up to its end with
  -- no range error is written over the end of the array.
  pub from_string_overrun :
      (s rest a : List ℕ) (w : W)
      → All (λ x. (0 < x) × IsByte x) s
      → length a ≤ 8
      → (f.strtod s).out_of_range ≡ false
      → (f.strtod s).consumed ≡ length s
      → ffidouble_from_string f (s ++ 0 ∷ rest) (call a w) ≡ fault
  unfolding ffidouble_from_string
  from_string_overrun s rest a w text small fine whole =
      let d = f.strtod s in
      let end : get_elem? (s ++ 0 ∷ rest) d.consumed ≡ some 0 = rw whole (char_at_end s rest) in
      let value = laws.strtod_double s in
      rw (c_string-terminated s rest text, fine, end) (status_then_copy a d.value w (omega arith))
