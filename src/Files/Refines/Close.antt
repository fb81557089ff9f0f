-- ===== src/Files/Refines/Close.antt =====
-- `fficlose` against the model.
use cakeml.Prelude.{
  ℕ, ◌^◌, ◌<◌, ◌≡◌, arith, true, Option, none, some, List, ◌∷◌, length, leb, le→leb, ◌==◌,
  if◌then◌else◌,
}
use cakeml.Machine.Word.{IsBytes}
use cakeml.Machine.Read.{◌>>=◌}
use cakeml.Machine.Buffer.{call, store}
use cakeml.Machine.Buffer.Laws.{store_lem}
use cakeml.Marshal.{w82n}
use cakeml.Files.Fs.{IoFs, close_fd, is_file}
use cakeml.Files.Fs.Calls.{◌orelse◌, ffi_close}
use cakeml.Files.Syscalls.{Os, Implements, CloseAs, Allows}
use cakeml.Files.{Variant, fficlose}
use cakeml.Files.Steps.{check-true}
use cakeml.Files.Refines.{Agrees}
use cakeml.Files.Refines.Descriptor.{fd_of_conf}

module _ (os : Os) (impl : Implements os) (v : Variant) (c : List ℕ) (fd : ℕ) (bytes : IsBytes c)
    (eight : length c ≡ 8) (conf : w82n c ≡ some fd) (small : fd < 2 ^ 32) where
  open os use {World}
  open impl use {fs_of}

  close-Agrees :
      (x : ℕ) (a : List ℕ) (w : World) (o : Option IoFs) (answer : ℕ × World)
      → CloseAs os fs_of w o answer
      → Agrees fs_of
          ((if answer.0 == 0 then store 0 0 else store 0 1) (call (x ∷ a) answer.1))
          ((do fs ← o; some (0 ∷ a, fs)) orelse some (1 ∷ a, fs_of w))
  close-Agrees x a w none (r, w') (failed, same) = record {
    out = 1 ∷ a;
    world = w';
    returns = rw failed (store_lem 0 1 (x ∷ a) w' (omega arith));
    promised = rw same;
  }
  close-Agrees x a w (some fs) (r, w') (e, same) = record {
    out = 0 ∷ a;
    world = w';
    returns = rw e (store_lem 0 0 (x ∷ a) w' (omega arith));
    promised = rw same;
  }

  -- Over an operating system with the files of the model, in any copy of the C, where the configuration
  -- is the eight bytes of a descriptor below 2 ^ 32 that is not a standard stream, and the array is not
  -- empty: `fficlose` returns with the bytes and the files that the model promises, on success and on
  -- failure.
  pub fficlose-refines :
      (x : ℕ) (a : List ℕ) (w : World)
      → Allows (λ d. is_file d.inode) (fs_of w) fd
      → Agrees fs_of
          (fficlose os v c (length c) (length (x ∷ a)) (call (x ∷ a) w))
          (ffi_close c (x ∷ a) (fs_of w))
  unfolding fficlose ffi_close
  fficlose-refines x a w is_regular =
      let c8 : (length c == 8) ≡ true = ground arith in
      let long : leb 1 (length (x ∷ a)) ≡ true = le→leb 1 (length (x ∷ a)) (omega arith) in
      rw
        (
          check-true v (call (x ∷ a) w) long,
          check-true v (call (x ∷ a) w) c8,
          fd_of_conf c fd bytes conf small,
          long,
          c8,
          conf,
        )
        (close-Agrees x a w (close_fd fd (fs_of w)) _ (impl.closes fd w is_regular))
