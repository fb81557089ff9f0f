-- ===== src/Double/InPlace.antt =====
-- The operations that replace the double at the start of the array.
use cakeml.Prelude.{
  ℕ, ◌≤◌, ◌≡◌, ap, ◌∙◌, arith, none, some, List, ◌++◌, length, take, drop, Option-cases, inl, inr,
}
use cakeml.Machine.Run.{Run, ok, fault}
use cakeml.Machine.Buffer.{Call, call, copy_to}
use cakeml.Machine.Buffer.Laws.{copy_from_lem, copy_to_lem, overwrite_front}
use cakeml.Double.{
  Floats, IsFloats, IsDouble, ffidouble_from_int, ffidouble_to_int, ffidouble_pow, ffidouble_ln,
  ffidouble_exp, ffidouble_floor,
}

-- The call returns with `d` in place of the first eight bytes.
abbrev pub Replaces : {W : Type 0} → List ℕ → W → List ℕ → Run (Call W) (Unit {0}) → Type 0
Replaces a w d r = r ≡ ok tt (call (d ++ drop 8 a) w)

put_double :
    {W : Type 0} (d a : List ℕ) (w : W)
    → IsDouble d
    → 8 ≤ length a
    → Replaces a w d (copy_to 0 d (call a w))
put_double d a w h room =
    copy_to_lem 0 d a w (omega arith)
    ∙ ap (λ t. ok tt (call t w))
        (overwrite_front d a (omega arith) ∙ ap (λ (n : ℕ). d ++ drop n a) h.0)

module _ (f : Floats) (laws : IsFloats f) {W : Type 0} (a : List ℕ) (w : W) where
  -- In an array of at least eight bytes, under the assumptions on floating-point operations, each call
  -- on one number replaces it by the operation's result and leaves the rest of the array;
  -- `ffidouble_toInt` faults exactly where the conversion is undefined.
  pub unary_calls :
      8 ≤ length a
      → Replaces a w (f.log (take 8 a)) (ffidouble_ln f (call a w))
        × Replaces a w (f.exp (take 8 a)) (ffidouble_exp f (call a w))
        × Replaces a w (f.floor (take 8 a)) (ffidouble_floor f (call a w))
        × Replaces a w (f.of_int64 (take 8 a)) (ffidouble_from_int f (call a w))
        × (ffidouble_to_int f (call a w) ≡ (elim (f.to_int64 (take 8 a)) [
          | none ↦ fault
          | some i ↦ ok tt (call (i ++ drop 8 a) w)
        ]))
  unfolding ffidouble_ln ffidouble_exp ffidouble_floor ffidouble_from_int ffidouble_to_int
  unary_calls room = (
    rw (copy_from_lem 0 8 a w (omega arith)) (put_double _ a w (laws.log_double _) room),
    rw (copy_from_lem 0 8 a w (omega arith)) (put_double _ a w (laws.exp_double _) room),
    rw (copy_from_lem 0 8 a w (omega arith)) (put_double _ a w (laws.floor_double _) room),
    rw (copy_from_lem 0 8 a w (omega arith)) (put_double _ a w (laws.of_int64_double _) room),
    elim (Option-cases (f.to_int64 (take 8 a))) [
      | inl e ↦ rw (copy_from_lem 0 8 a w (omega arith), e)
      | inr (i, e) ↦
          rw (copy_from_lem 0 8 a w (omega arith), e)
            (put_double i a w (laws.to_int64_int _ i e) room)
    ],
  )

  -- In an array of at least sixteen bytes, under the assumptions on floating-point operations,
  -- `ffidouble_pow` takes the two numbers at the start and puts the power in place of the first; the
  -- rest of the array is unchanged.
  pub ffidouble_pow-Replaces :
      16 ≤ length a
      → Replaces a w (f.pow (take 8 a) (take 8 (drop 8 a))) (ffidouble_pow f (call a w))
  unfolding ffidouble_pow
  ffidouble_pow-Replaces room =
      rw (copy_from_lem 0 8 a w (omega arith), copy_from_lem 8 8 a w (omega arith))
        (put_double _ a w (laws.pow_double _ _) (omega arith))
