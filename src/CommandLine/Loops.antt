-- ===== src/CommandLine/Loops.antt =====
-- The two loops over an argument, on every string.
use cakeml.Prelude.{
  ℕ, zero, suc, ◌+◌, ◌^◌, ◌≤◌, ◌<◌, ◌≡◌, refl, ap, ◌∙◌, arith, some, List, [], ◌∷◌, length, All,
  lt→ltb, ltb, Bool-cases, inl, inr,
}
use native.Mathlib.Decide.{dec_lt}
use cakeml.Machine.Word.{IsByte}
use cakeml.Machine.Run.{ok, fault}
use cakeml.Machine.Buffer.{call, overwrite}
use cakeml.Machine.Buffer.Laws.{
  store_lem, store_outside, overwrite-append, length-overwrite, overwrite-nil,
}
use cakeml.CommandLine.{count_loop, copy_loop, terminated}

-- No character of a string is its terminator.
abbrev pub NonZero : List ℕ → Type 0
NonZero s = All (λ x. (0 < x) × IsByte x) s

pub count_loop-length :
    (s : List ℕ) (k : ℕ)
    → NonZero s
    → k + length s < 2 ^ 31
    → count_loop (terminated s) k ≡ some (k + length s)
unfolding count_loop
count_loop-length [] k h fits = ap some (omega arith)
count_loop-length (zero ∷ s) k h fits = absurd (omega arith)
count_loop-length (suc x ∷ s) k h fits =
    rw (lt→ltb (k + 1) (2 ^ 31) (omega arith))
      (count_loop-length s (k + 1) h.1 (omega arith) ∙ ap some (omega arith))

module _ {W : Type 0} where
  -- The copy writes the string from `k` on, and not its terminator.
  pub copy_loop-overwrite :
      (s : List ℕ) (k : ℕ) (a : List ℕ) (w : W)
      → NonZero s
      → k + length s ≤ length a
      → k + length s < 2 ^ 31
      → copy_loop (terminated s) k (call a w) ≡ ok tt (call (overwrite k s a) w)
  unfolding copy_loop
  copy_loop-overwrite [] k a w h room fits = rw overwrite-nil refl
  copy_loop-overwrite (zero ∷ s) k a w h room fits = absurd (omega arith)
  copy_loop-overwrite (suc x ∷ s) k a w h room fits =
      rw (store_lem k (suc x) a w (omega arith), lt→ltb (k + 1) (2 ^ 31) (omega arith))
        (copy_loop-overwrite s (k + 1) (overwrite k (suc x ∷ []) a) w h.1
            (rw length-overwrite (omega arith)) (omega arith)
          ∙ ap (λ t. ok tt (call t w)) (overwrite-append k (suc x ∷ []) s a))

  -- The loop has no bound of its own: a string that is longer than what is left of the array is
  -- written over the end.
  pub copy_loop-overrun :
      (s : List ℕ) (k : ℕ) (a : List ℕ) (w : W)
      → NonZero s
      → k ≤ length a
      → length a < k + length s
      → copy_loop (terminated s) k (call a w) ≡ fault
  unfolding copy_loop
  copy_loop-overrun [] k a w h room over = absurd (omega arith)
  copy_loop-overrun (zero ∷ s) k a w h room over = absurd (omega arith)
  copy_loop-overrun (suc x ∷ s) k a w h room over =
      let out = overwrite k (suc x ∷ []) a in
      let same : length out ≡ length a = length-overwrite k (suc x ∷ []) a in
      elim (dec_lt k (length a)) [
        | no full ↦ rw (store_outside k (suc x) a w (omega arith))
        | yes free ↦
            let rest = copy_loop-overrun s (k + 1) out w h.1 (omega arith) (omega arith) in
            rw (store_lem k (suc x) a w free)
              (elim (Bool-cases (ltb (k + 1) (2 ^ 31))) [ inl e ↦ rw e rest | inr e ↦ rw e ])
      ]
