-- ===== src/Files/Steps.antt =====
-- What the parts of the file calls do to the array, whatever the operating system answers.
use cakeml.Prelude.{
  ℕ, ◌^◌, ◌≤◌, ◌<◌, ◌≡◌, ap, ◌∙◌, arith, Bool, true, false, List, [], ◌∷◌, ◌++◌, length, set, drop,
  lt→leb,
}
use cakeml.Machine.Word.{u32, neg32, sign_extend}
use cakeml.Machine.Run.{ok}
use cakeml.Machine.Buffer.{Call, call, overwrite}
use cakeml.Machine.Buffer.Laws.{store_lem, overwrite_front}
use cakeml.Marshal.{n2w2, n2w8}
use cakeml.Marshal.Codes.{int_to_byte2_lem, int_to_byte8_lem}
use cakeml.Files.Syscalls.{Os}
use cakeml.Files.{Variant, check, store_fd, store_count}

pub check-true :
    {W : Type 0} (v : Variant) {b : Bool} (s : Call W) → b ≡ true → check v b s ≡ ok tt s
check-true v s h = ground arith

module _ (os : Os) (v : Variant) (w : os.World) where
  -- A descriptor is answered by 0 and its eight bytes.
  pub store_fd_ok :
      (error fd : ℕ) (a : List ℕ)
      → fd < 2 ^ 31
      → 9 ≤ length a
      → store_fd os v error fd (call a w) ≡ ok tt (call (0 ∷ n2w8 fd ++ drop 9 a) w)
  unfolding store_fd n2w8
  store_fd_ok error fd [] hf h = absurd (omega arith)
  store_fd_ok error fd (x ∷ a) hf h =
      let low : neg32 fd ≡ false = lt→leb (2 ^ 31) fd hf in
      let same : sign_extend fd ≡ fd = rw low in
      rw (low, store_lem 0 0 (x ∷ a) w (omega arith))
        (int_to_byte8_lem fd 1 (0 ∷ a) w (omega arith) (omega arith)
          ∙ ap (λ t. ok tt (call (0 ∷ t) w))
              (ap (λ (k : ℕ). overwrite 0 (n2w8 k) a) same
                ∙ overwrite_front (n2w8 fd) a (omega arith)))

  -- -1 is answered by the error code.
  pub store_fd_error :
      (error fd : ℕ) (a : List ℕ)
      → neg32 fd ≡ true
      → 0 < length a
      → store_fd os v error fd (call a w) ≡ ok tt (call (set a 0 error) w)
  unfolding store_fd
  store_fd_error error fd [] neg h = absurd (omega arith)
  store_fd_error error fd (x ∷ a) neg h = rw (neg, store_lem 0 error (x ∷ a) w (omega arith))

  pub store_count_ok :
      (k x0 x1 x2 : ℕ) (a : List ℕ)
      → k < 2 ^ 31
      → store_count os v k (call (x0 ∷ x1 ∷ x2 ∷ a) w) ≡ ok tt (call (0 ∷ n2w2 k ++ a) w)
  unfolding store_count n2w2
  store_count_ok k x0 x1 x2 a h =
      let whole : u32 k ≡ k = omega arith in
      let low : neg32 k ≡ false = lt→leb (2 ^ 31) k h in
      rw (store_count, whole, low, store_lem 0 0 (x0 ∷ x1 ∷ x2 ∷ a) w (omega arith))
        (int_to_byte2_lem k 1 (0 ∷ x1 ∷ x2 ∷ a) w (omega arith) (omega arith))

  pub store_count_error :
      (r : ℕ) (a : List ℕ)
      → neg32 (u32 r) ≡ true
      → 0 < length a
      → store_count os v r (call a w) ≡ ok tt (call (set a 0 1) w)
  unfolding store_count
  store_count_error r [] neg h = absurd (omega arith)
  store_count_error r (x ∷ a) neg h = rw (neg, store_lem 0 1 (x ∷ a) w (omega arith))
