-- ===== src/Files/Safety/Opens.antt =====
-- `ffiopen_in`, `ffiopen_out` and `fficlose` of basis/basis_ffi.c over any operating system.
use cakeml.Prelude.{
  ℕ, ◌^◌, ◌≤◌, ◌<◌, ◌≡◌, refl, ap, ◌∙◌, arith, Bool-cases, some, List, [], ◌∷◌, length, leb, ◌==◌,
  ◌⊎◌, inl, inr,
}
use cakeml.Machine.Word.{neg32, sign_extend}
use cakeml.Machine.Run.{Run, ok, aborted}
use cakeml.Machine.Buffer.{Call, call, c_string, overwrite}
use cakeml.Machine.Buffer.Laws.{
  store_lem, length-overwrite, get_elem?-overwrite_outside, get_elem?_start,
}
use cakeml.Marshal.{n2w8}
use cakeml.Marshal.Codes.{int_to_byte8_lem}
use cakeml.Files.{basis, store_fd, ffiopen_in, ffiopen_out, fficlose}
use cakeml.Files.Syscalls.{Os}
use cakeml.Files.Descriptors.{to_read, to_write}
use cakeml.Files.Safety.{Answered, Guarded, has_fd}

-- Either the array has nine bytes and the call is answered with the bytes behind them unchanged, or it
-- has not and the call stops with nothing changed.
abbrev pub GuardedOpen : {W : Type 0} → List ℕ → W → Run (Call W) (Unit {0}) → Type 0
GuardedOpen a w run =
    ((9 ≤ length a) × Answered 9 a run) ⊎ ((length a < 9) × (run ≡ aborted (call a w)))

module _ (os : Os) where
  open os use {World, close}

  one_byte-Answered :
      (x : ℕ) (a : List ℕ) (w : World)
      → (x ≡ 0) ⊎ (x ≡ 1)
      → 1 ≤ length a
      → (n : ℕ) → 1 ≤ n
      → Answered n a (ok tt (call (overwrite 0 (x ∷ []) a) w))
  one_byte-Answered x a w status room n inside =
      let start = get_elem?_start 0 (x ∷ []) a (omega arith) (omega arith) in
      record {
        out = overwrite 0 (x ∷ []) a;
        world = w;
        returns = refl;
        same_length = length-overwrite 0 (x ∷ []) a;
        status = elim status [ inl e ↦ inl (start ∙ ap some e) | inr e ↦ inr (start ∙ ap some e) ];
        outside = λ j h. get_elem?-overwrite_outside 0 j (x ∷ []) a (inr (omega arith));
      }

  store_fd-Answered :
      (fd : ℕ) (a : List ℕ) (w : World)
      → fd < 2 ^ 32
      → 9 ≤ length a
      → Answered 9 a (store_fd os basis 1 fd (call a w))
  unfolding store_fd n2w8
  store_fd-Answered fd a w int room = elim (Bool-cases (neg32 fd)) [
    | inl failed ↦
        rw (failed, store_lem 0 1 a w (omega arith))
          (one_byte-Answered 1 a w (inr refl) (omega arith) 9 (omega arith))
    | inr good ↦
        let a1 = overwrite 0 (0 ∷ []) a in
        let bytes = n2w8 fd in
        let same : sign_extend fd ≡ fd = rw good in
        record {
          out = overwrite 1 bytes a1;
          world = w;
          returns =
              rw (good, store_lem 0 0 a w (omega arith))
                (int_to_byte8_lem fd 1 a1 w int (omega (arith, length-overwrite 0 (0 ∷ []) a))
                  ∙ ap (λ (k : ℕ). ok tt (call (overwrite 1 (n2w8 k) a1) w)) same);
          same_length = length-overwrite 1 bytes a1 ∙ length-overwrite 0 (0 ∷ []) a;
          status = inl (
              get_elem?-overwrite_outside 1 0 bytes a1 (inl (omega arith))
              ∙ get_elem?_start 0 (0 ∷ []) a (omega arith) (omega arith));
          outside = λ j h.
              get_elem?-overwrite_outside 1 j bytes a1 (inr (omega arith))
              ∙ get_elem?-overwrite_outside 0 j (0 ∷ []) a (inr (omega arith));
        }
  ]

  fficlose-Guarded :
      (c a : List ℕ) (w : World)
      → Guarded c 1 1 a w (fficlose os basis c (length c) (length a) (call a w))
  unfolding fficlose
  fficlose-Guarded c a w = elim (Bool-cases (leb 1 (length a))) [
    | inr empty ↦ inr (inr (ground arith), rw empty)
    | inl some_byte ↦ elim (Bool-cases (length c == 8)) [
      | inr other ↦ inr (inl (ground arith), rw (some_byte, other))
      | inl eight ↦
          let size : length c ≡ 8 = ground arith in
          let room : 1 ≤ length a = ground arith in
          let (fd, conf) = has_fd c size in
          let w1 = (close fd w).1 in
          inl (
            size,
            room,
            elim (Bool-cases ((close fd w).0 == 0)) [
              | inl good ↦
                  rw (some_byte, eight, conf, good, store_lem 0 0 a w1 (omega arith))
                    (one_byte-Answered 0 a w1 (inl refl) room 1 (omega arith))
              | inr bad ↦
                  rw (some_byte, eight, conf, bad, store_lem 0 1 a w1 (omega arith))
                    (one_byte-Answered 1 a w1 (inr refl) room 1 (omega arith))
            ],
          )
    ]
  ]

  -- Over any operating system whose descriptors are numbers of 32 bits, with a terminated name and any
  -- array: `ffiopen_in` and `ffiopen_out` return if the array has nine bytes, have set its first
  -- byte to 0 or 1 and changed nothing behind the nine, and stop at an assertion with nothing
  -- changed if not. With any configuration and any array, `fficlose` returns if the configuration
  -- has eight bytes and the array one, and has changed only its first byte, to 0 or 1, and else it
  -- stops at an assertion with nothing changed.
  pub descriptor_calls-Guarded :
      (c name conf a : List ℕ) (w : World)
      → c_string c ≡ some name
      → (to_read os basis name w).0 < 2 ^ 32
      → (to_write os basis name w).0 < 2 ^ 32
      → GuardedOpen a w (ffiopen_in os basis c (length a) (call a w))
        × GuardedOpen a w (ffiopen_out os basis c (length a) (call a w))
        × Guarded conf 1 1 a w (fficlose os basis conf (length conf) (length a) (call a w))
  unfolding ffiopen_in ffiopen_out
  descriptor_calls-Guarded c name conf a w str int_in int_out =
      let r = to_read os basis name w in
      let t = to_write os basis name w in
      elim (Bool-cases (leb 9 (length a))) [
        | inr small ↦
            (inr (ground arith, rw small), inr (ground arith, rw small), fficlose-Guarded conf a w)
        | inl long ↦
            let room : 9 ≤ length a = ground arith in
            (
              inl (room, rw (long, str) (store_fd-Answered r.0 a r.1 int_in room)),
              inl (room, rw (long, str) (store_fd-Answered t.0 a t.1 int_out room)),
              fficlose-Guarded conf a w,
            )
      ]
