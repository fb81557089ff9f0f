-- ===== src/Pancake/Doubles.antt =====
-- The calls on doubles of pancake/temp/basis_ffi.c, which check the length of the array.
use cakeml.Prelude.{
  ℕ, zero, suc, ◌+◌, ◌≤◌, ◌<◌, ◌≡◌, refl, sym, ap, ◌∙◌, arith, none, some, List, [], ◌∷◌, ◌++◌,
  length, length-append, length-drop, take, drop, ◌==◌, le→leb, if◌then◌else◌, get_elem?, All,
  Bool-cases, Option-cases, inl, inr, append_assoc, append-nil,
}
use cakeml.Machine.Word.{IsByte}
use cakeml.Machine.Run.{ok, aborted}
use cakeml.Machine.Buffer.{call, overwrite, load, c_string}
use cakeml.Machine.Buffer.Laws.{
  store_lem, copy_to_lem, overwrite-append, overwrite_front, length-overwrite, overwrite-nil,
}
use cakeml.Double.Text.{c_string-terminated, take_short}
use cakeml.Pancake.{Scanf, put_bytes, get_bytes, ffidouble_from_string, ffidouble_to_string}

-- The loop that stores bytes one by one writes them all, from `i` on.
put_bytes_lem :
    {W : Type 0} (ys : List ℕ) (i : ℕ) (a : List ℕ) (w : W)
    → i + length ys ≤ length a
    → put_bytes ys i (call a w) ≡ ok tt (call (overwrite i ys a) w)
unfolding put_bytes
put_bytes_lem [] i a w h = ap (λ t. ok tt (call t w)) (sym (overwrite-nil i a))
put_bytes_lem (y ∷ ys) i a w h = rw (store_lem i y a w (omega arith)) (
    put_bytes_lem ys (i + 1) (overwrite i (y ∷ []) a) w
      (omega (arith, length-overwrite i (y ∷ []) a))
    ∙ ap (λ t. ok tt (call t w)) (overwrite-append i (y ∷ []) ys a))

get_elem?-drop :
    (i : ℕ) (a : List ℕ)
    → i < length a
    → (x : ℕ) × (get_elem? a i ≡ some x) × (drop i a ≡ x ∷ drop (i + 1) a)
get_elem?-drop i [] h = absurd (omega arith)
get_elem?-drop zero (x ∷ a) h = (x, refl, refl)
get_elem?-drop (suc i) (x ∷ a) h =
    let (y, at, tail) = get_elem?-drop i a (omega arith) in
    (y, at, tail ∙ ap (λ (k : ℕ). y ∷ drop k (x ∷ a)) next)
  where
    next : suc (i + 1) ≡ suc i + 1
    next = omega arith

get_bytes_lem :
    {W : Type 0} (n i : ℕ) (a : List ℕ) (w : W)
    → i + n ≤ length a
    → get_bytes n i (call a w) ≡ ok (take n (drop i a)) (call a w)
unfolding get_bytes load
get_bytes_lem zero i a w h = refl
get_bytes_lem (suc n) i a w h =
    let (x, at, tail) = get_elem?-drop i a (omega arith) in
    rw (at, get_bytes_lem n (i + 1) a w (omega arith), tail)

drop_all : (n : ℕ) (a : List ℕ) → length a ≤ n → drop n a ≡ []
drop_all zero [] h = refl
drop_all zero (x ∷ a) h = absurd (omega arith)
drop_all (suc n) [] h = refl
drop_all (suc n) (x ∷ a) h = drop_all n a (omega arith)

whole : (d a : List ℕ) → length a ≤ length d → d ++ drop (length d) a ≡ d
whole d a h = ap (λ t. d ++ t) (drop_all (length d) a h) ∙ append-nil d

module _ (f : Scanf) {W : Type 0} where
  -- On a terminated string of bytes, and where numbers are eight bytes, `ffidouble_fromString`
  -- of the copy for Pancake stops at its assertion with nothing changed if the array has not
  -- eight bytes; if it has, the array becomes the number that `sscanf` found, or the eight
  -- bytes that happened to be on the stack if it found none.
  pub from_string_lem :
      (garbage s rest a : List ℕ) (w : W)
      → All (λ x. (0 < x) × IsByte x) s
      → length garbage ≡ 8
      → ((d : List ℕ) → f.sscanf s ≡ some d → length d ≡ 8)
      → ffidouble_from_string f garbage (s ++ 0 ∷ rest) (length a) (call a w) ≡ (
          if 8 == length a
          then ok tt (call (elim (f.sscanf s) [ none ↦ garbage | some d ↦ d ]) w)
          else aborted (call a w))
  unfolding ffidouble_from_string
  from_string_lem garbage s rest a w text g8 d8 =
      let found = c_string-terminated s rest text in
      let put : (d : List ℕ)
          → length d ≡ 8
          → length a ≡ 8
          → put_bytes d 0 (call a w) ≡ ok tt (call d w) =
        λ d n m.
          put_bytes_lem d 0 a w (omega arith)
          ∙ ap (λ t. ok tt (call t w))
              (overwrite_front d a (omega arith) ∙ whole d a (omega arith)) in
      elim (Bool-cases (8 == length a)) [
        | inr other ↦ rw (found, other)
        | inl eight ↦
            let size : length a ≡ 8 = ground arith in
            elim (Option-cases (f.sscanf s)) [
              | inl e ↦ rw (found, eight, e) (put garbage g8 size)
              | inr (d, e) ↦ rw (found, eight, e) (put d (d8 d e) size)
            ]
      ]

  -- In an array of 256 bytes `ffidouble_toString` leaves the text of the number, where it reads back
  -- as a string, if the text has at most 254 characters, none of them 0.
  pub to_string_lem :
      (a : List ℕ) (w : W)
      → length a ≡ 256
      → length (f.format (take 8 a)) ≤ 254
      → All (λ x. (0 < x) × IsByte x) (f.format (take 8 a))
      → (out : List ℕ) × (ffidouble_to_string f 256 (call a w) ≡ ok tt (call out w))
        × (length out ≡ 256)
        × (c_string out ≡ some (f.format (take 8 a)))
  unfolding ffidouble_to_string
  to_string_lem a w size short text =
      let shown = f.format (take 8 a) in
      let n : length (shown ++ 0 ∷ []) ≡ length shown + 1 =
        omega (arith, length-append shown (0 ∷ [])) in
      let shape : overwrite 0 (shown ++ 0 ∷ []) a ≡ shown ++ 0 ∷ drop (length shown + 1) a =
        overwrite_front (shown ++ 0 ∷ []) a (omega arith)
        ∙ ap (λ (k : ℕ). (shown ++ 0 ∷ []) ++ drop k a) n
        ∙ append_assoc shown (0 ∷ []) (drop (length shown + 1) a) in
      (
        shown ++ 0 ∷ drop (length shown + 1) a,
        rw
            (
              get_bytes_lem 8 0 a w (omega arith),
              take_short 254 shown short,
              copy_to_lem 0 (shown ++ 0 ∷ []) a w (omega arith),
              le→leb (length shown) 255 (omega arith),
            )
            (ap (λ t. ok tt (call t w)) shape),
        omega (
          arith,
          length-append shown (0 ∷ drop (length shown + 1) a),
          length-drop (length shown + 1) a,
        ),
        c_string-terminated shown _ text,
      )
