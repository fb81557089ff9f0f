-- ===== src/Files/Descriptors.antt =====
-- A descriptor on its way from an open call to the close call, in the eight bytes of Marshal.
use cakeml.Prelude.{
  ℕ, ◌^◌, ◌≤◌, ◌<◌, ◌≡◌, refl, ap, ◌∙◌, arith, Bool-cases, true, some, List, [], ◌∷◌, ◌++◌, length,
  drop, leb, le→leb, inl, inr, ◌==◌, if◌then◌else◌,
}
use cakeml.Machine.Run.{Run, ok}
use cakeml.Machine.Buffer.{Call, call, c_string}
use cakeml.Machine.Buffer.Laws.{store_lem}
use cakeml.Marshal.{byte8_to_int, n2w8}
use cakeml.Marshal.Codes.{byte8_to_int-overwrite}
use cakeml.Files.{Variant, ffiopen_in, ffiopen_out, fficlose}
use cakeml.Files.Syscalls.{Os, Flag, Perm}
use cakeml.Files.Steps.{check-true, store_fd_ok}

-- The eight bytes that are stored for a descriptor read back as the descriptor.
byte8_to_int-n2w8 : (fd : ℕ) → fd < 2 ^ 31 → byte8_to_int (n2w8 fd) 0 ≡ some fd
unfolding n2w8
byte8_to_int-n2w8 fd small =
    byte8_to_int-overwrite 0 _ _ _ _ _ _ _ _ (n2w8 fd) (omega arith) (omega arith) (omega arith)
      (omega arith) (omega arith)
    ∙ ap some (ground arith)

length-n2w8 : (fd : ℕ) → length (n2w8 fd) ≡ 8
unfolding n2w8
length-n2w8 fd = refl

module _ (os : Os) (v : Variant) where
  open os use {World, open_file, close}

  -- On the array `a`, an open call to which the system gave `answer` returns the status 0, eight
  -- bytes, and the rest of `a`. In the state `w1`, `fficlose` with these bytes closes the descriptor
  -- of `answer`: it tells in the first byte of its array whether that succeeded.
  abbrev pub IsClosable :
      (a : List ℕ) (x : ℕ) (b : List ℕ) (w1 : World)
      → ℕ × World
      → Run (Call World) (Unit {0})
      → Type 0
  IsClosable a x b w1 answer opened =
      (conf : List ℕ) × (opened ≡ ok tt (call (0 ∷ conf ++ drop 9 a) answer.1))
      × (length conf ≡ 8)
      × (fficlose os v conf (length conf) (length (x ∷ b)) (call (x ∷ b) w1)
          ≡ ok tt (call ((if (close answer.0 w1).0 == 0 then 0 else 1) ∷ b) (close answer.0 w1).1))

  fficlose_stored :
      (fd x : ℕ) (b : List ℕ) (w : World)
      → fd < 2 ^ 31
      → fficlose os v (n2w8 fd) 8 (length (x ∷ b)) (call (x ∷ b) w)
        ≡ ok tt (call ((if (close fd w).0 == 0 then 0 else 1) ∷ b) (close fd w).1)
  unfolding fficlose
  fficlose_stored fd x b w small =
      let long : leb 1 (length (x ∷ b)) ≡ true = le→leb 1 (length (x ∷ b)) (omega arith) in
      let read = byte8_to_int-n2w8 fd small in
      elim (Bool-cases ((close fd w).0 == 0)) [
        | inl good ↦
            rw (check-true v (call (x ∷ b) w) long, check-true v (call (x ∷ b) w) refl, read, good)
              (store_lem 0 0 (x ∷ b) (close fd w).1 (omega arith))
        | inr bad ↦
            rw (check-true v (call (x ∷ b) w) long, check-true v (call (x ∷ b) w) refl, read, bad)
              (store_lem 0 1 (x ∷ b) (close fd w).1 (omega arith))
      ]

  -- The descriptor for a file, to read and to write it.
  abbrev pub to_read : (name : List ℕ) → World → ℕ × World
  to_read name = open_file name (Flag.rdonly ∷ []) []

  abbrev pub to_write : (name : List ℕ) → World → ℕ × World
  to_write name =
      open_file name (Flag.rdwr ∷ Flag.creat ∷ Flag.trunc ∷ [])
        (Perm.irusr ∷ Perm.iwusr ∷ Perm.irgrp ∷ Perm.iroth ∷ [])

  -- Over any operating system, in any copy of the C, where the configuration is a terminated name,
  -- the array has at least nine bytes and both open calls get a descriptor below 2 ^ 31: what
  -- `ffiopen_in` and `ffiopen_out` store is the status 0 and a configuration with which `fficlose`
  -- closes that descriptor, at any later time and on any array that is not empty; it answers 0 if
  -- the system call gave 0 and 1 if not.
  pub opened_is_closed :
      (c name a : List ℕ) (x : ℕ) (b : List ℕ) (w w1 : World)
      → c_string c ≡ some name
      → 9 ≤ length a
      → (to_read name w).0 < 2 ^ 31
      → (to_write name w).0 < 2 ^ 31
      → IsClosable a x b w1 (to_read name w) (ffiopen_in os v c (length a) (call a w))
        × IsClosable a x b w1 (to_write name w) (ffiopen_out os v c (length a) (call a w))
  unfolding ffiopen_in ffiopen_out
  opened_is_closed c name a x b w w1 str room small_in small_out =
      let long : leb 9 (length a) ≡ true = le→leb 9 (length a) room in
      let r = to_read name w in
      let t = to_write name w in
      (
        (
          n2w8 r.0,
          rw (check-true v (call a w) long, str) (store_fd_ok os v r.1 1 r.0 a small_in room),
          length-n2w8 r.0,
          rw length-n2w8 (fficlose_stored r.0 x b w1 small_in),
        ),
        (
          n2w8 t.0,
          rw (check-true v (call a w) long, str)
              (store_fd_ok os v t.1 v.open_out_error t.0 a small_out room),
          length-n2w8 t.0,
          rw length-n2w8 (fficlose_stored t.0 x b w1 small_out),
        ),
      )
