-- ===== src/CommandLine/Refines.antt =====
-- The handlers of the command line do what clFFIScript.sml promises, and what they do beyond it.
use cakeml.Prelude.{
  ℕ, zero, suc, ◌+◌, ◌*◌, ◌/◌, ◌^◌, ◌≤◌, ◌<◌, ◌≡◌, refl, ap, sym, ◌∙◌, arith, Bool-cases, inl, inr,
  Option, none, some, List, [], ◌∷◌, ◌++◌, map, length, get_elem?, drop, All, All-get_elem?, ltb,
}
use mathlib.Core.Option.{some-injective}
use cakeml.Machine.Word.{u8}
use cakeml.Machine.Run.{ok, fault}
use cakeml.Machine.Buffer.{call, load, store}
use cakeml.Machine.Buffer.Laws.{overwrite_front, store_lem}
use cakeml.CommandLine.{
  ffiget_arg_count, ffiget_arg_length, ffiget_arg, ValidArg, ffi_get_arg_count, ffi_get_arg_length,
  ffi_get_arg, string_length, string_into, terminated, args_of,
}
use cakeml.CommandLine.Loops.{NonZero, count_loop-length, copy_loop-overwrite, copy_loop-overrun}

-- Where the model returns, `ffiget_arg_count` returns the same bytes and changes nothing else.
pub ffiget_arg_count-refines :
    {W : Type 0} (ss : List (List ℕ)) (a out : List ℕ) (w : W)
    → ffi_get_arg_count a ss ≡ some out
    → ffiget_arg_count (args_of ss) (call a w) ≡ ok tt (call out w)
unfolding ffi_get_arg_count ffiget_arg_count store
ffiget_arg_count-refines ss [] out w e = cc
ffiget_arg_count-refines ss (x ∷ []) out w e = cc
ffiget_arg_count-refines ss (x ∷ y ∷ []) out w e = ground arith
ffiget_arg_count-refines ss (x ∷ y ∷ z ∷ a) out w e = ground arith

none≢some {ℓ} : {A : Type ℓ} {x : A} → none ≡ some x → ⊥
none≢some e = cc

-- The model adds the two bytes of an index the other way round.
index_comm : (x y : ℕ) → y * 256 + x ≡ x + y * 256
index_comm x y = omega arith

get_elem?-terminated :
    (ss : List (List ℕ)) (i : ℕ) (s : List ℕ)
    → get_elem? ss i ≡ some s
    → get_elem? (map terminated ss) i ≡ some (terminated s)
get_elem?-terminated [] i s e = absurd (cc)
get_elem?-terminated (t ∷ ss) zero s e = cc
get_elem?-terminated (t ∷ ss) (suc i) s e = get_elem?-terminated ss i s e

-- The string at an index, whatever its length below 2 ^ 31: `ffiget_arg_length` answers with the low
-- 16 bits of the length, so a length from 2 ^ 16 on is cut.
pub ffiget_arg_length_lem :
    {W : Type 0} (ss : List (List ℕ)) (x y : ℕ) (a s : List ℕ) (w : W)
    → get_elem? ss (x + y * 256) ≡ some s
    → NonZero s
    → length s < 2 ^ 31
    → ffiget_arg_length (args_of ss) (call (x ∷ y ∷ a) w)
      ≡ ok tt (call (u8 (length s) ∷ u8 (length s / 256) ∷ a) w)
unfolding ffiget_arg_length load
ffiget_arg_length_lem ss x y a s w e valid fits =
    let n : ℕ = 0 + length s in
    let same : n ≡ length s = omega arith in
    rw
      (
        get_elem?-terminated ss (x + y * 256) s e,
        count_loop-length s 0 valid (omega arith),
        store_lem 0 (u8 n) (x ∷ y ∷ a) w (omega arith),
        store_lem 1 (u8 (n / 256)) (u8 n ∷ y ∷ a) w (omega arith),
      )
      (ap (λ (k : ℕ). ok tt (call (u8 k ∷ u8 (k / 256) ∷ a) w)) same)

-- With room for the string, `ffiget_arg` writes it from the start of the array on, without its
-- terminator, and leaves the rest of the array.
pub ffiget_arg_lem :
    {W : Type 0} (ss : List (List ℕ)) (x y : ℕ) (a s : List ℕ) (w : W)
    → get_elem? ss (x + y * 256) ≡ some s
    → NonZero s
    → length s < 2 ^ 31
    → length s ≤ 2 + length a
    → ffiget_arg (args_of ss) (call (x ∷ y ∷ a) w)
      ≡ ok tt (call (s ++ drop (length s) (x ∷ y ∷ a)) w)
unfolding ffiget_arg load
ffiget_arg_lem ss x y a s w e valid fits room = rw (get_elem?-terminated ss (x + y * 256) s e) (
    copy_loop-overwrite s 0 (x ∷ y ∷ a) w valid (omega arith) (omega arith)
    ∙ ap (λ t. ok tt (call t w)) (overwrite_front s (x ∷ y ∷ a) (omega arith)))

-- `ffiget_arg` has no bound: for the index of a string without zeros that is longer than the array, it
-- writes over the end of the array.
pub ffiget_arg_overrun :
    {W : Type 0} (ss : List (List ℕ)) (x y : ℕ) (a s : List ℕ) (w : W)
    → get_elem? ss (x + y * 256) ≡ some s
    → NonZero s
    → 2 + length a < length s
    → ffiget_arg (args_of ss) (call (x ∷ y ∷ a) w) ≡ fault
unfolding ffiget_arg load
ffiget_arg_overrun ss x y a s w e valid over =
    rw (get_elem?-terminated ss (x + y * 256) s e)
      (copy_loop-overrun s 0 (x ∷ y ∷ a) w valid (omega arith) (omega arith))

string_length-eq-some :
    (o : Option (List ℕ)) (out : List ℕ)
    → string_length o ≡ some out
    → (s : List ℕ) × (o ≡ some s) × (u8 (length s) ∷ u8 (length s / 256) ∷ [] ≡ out)
unfolding string_length
string_length-eq-some none out e = absurd (cc)
string_length-eq-some (some s) out e = (s, refl, some-injective _ _ e)

string_into-eq-some :
    (bytes : List ℕ) (o : Option (List ℕ)) (out : List ℕ)
    → string_into bytes o ≡ some out
    → (s : List ℕ) × (o ≡ some s) × (length s ≤ length bytes) × (s ++ drop (length s) bytes ≡ out)
unfolding string_into
string_into-eq-some bytes none out e = absurd (cc)
string_into-eq-some bytes (some s) out e = (s, refl, ground arith, ground arith)

ffi_get_arg_length-some :
    (b0 b1 : ℕ) (ss : List (List ℕ)) (out : List ℕ)
    → ffi_get_arg_length (b0 ∷ b1 ∷ []) ss ≡ some out
    → string_length (get_elem? ss (b1 * 256 + b0)) ≡ some out
unfolding ffi_get_arg_length
ffi_get_arg_length-some b0 b1 ss out e = elim (Bool-cases (ltb (length ss) (256 * 256))) [
  | inl few ↦ rw few at e
  | inr many ↦ absurd (none≢some (rw many at e))
]

-- Where the model returns and the arguments are valid, that is shorter than 2 ^ 16 and without
-- zeros, `ffiget_arg_length` returns the same bytes and changes nothing else.
pub ffiget_arg_length-refines :
    {W : Type 0} (ss : List (List ℕ)) (a out : List ℕ) (w : W)
    → All ValidArg ss
    → ffi_get_arg_length a ss ≡ some out
    → ffiget_arg_length (args_of ss) (call a w) ≡ ok tt (call out w)
ffiget_arg_length-refines ss [] out w valid e = unfold ffi_get_arg_length in cc
ffiget_arg_length-refines ss (x ∷ []) out w valid e = unfold ffi_get_arg_length in cc
ffiget_arg_length-refines ss (x ∷ y ∷ []) out w valid e =
    let (s, at, eq) = string_length-eq-some _ out (ffi_get_arg_length-some x y ss out e) in
    let here = ap (get_elem? ss) (sym (index_comm x y)) ∙ at in
    let v = All-get_elem? ValidArg ss (x + y * 256) valid here in
    ffiget_arg_length_lem ss x y [] s w here v.1 (omega arith) ∙ ap (λ t. ok tt (call t w)) eq
ffiget_arg_length-refines ss (x ∷ y ∷ z ∷ a) out w valid e = unfold ffi_get_arg_length in cc

-- Where the model returns and the arguments are valid, that is shorter than 2 ^ 16 and without
-- zeros, `ffiget_arg` returns the same bytes and changes nothing else.
pub ffiget_arg-refines :
    {W : Type 0} (ss : List (List ℕ)) (a out : List ℕ) (w : W)
    → All ValidArg ss
    → ffi_get_arg a ss ≡ some out
    → ffiget_arg (args_of ss) (call a w) ≡ ok tt (call out w)
unfolding ffi_get_arg
ffiget_arg-refines ss [] out w valid e = cc
ffiget_arg-refines ss (x ∷ []) out w valid e = cc
ffiget_arg-refines ss (x ∷ y ∷ a) out w valid e =
    let (s, at, room, eq) = string_into-eq-some (x ∷ y ∷ a) _ out e in
    let here = ap (get_elem? ss) (sym (index_comm x y)) ∙ at in
    let v = All-get_elem? ValidArg ss (x + y * 256) valid here in
    ffiget_arg_lem ss x y a s w here v.1 (omega arith) (omega arith) ∙ ap (λ t. ok tt (call t w)) eq
