-- ===== src/Files/Refines/Open.antt =====
-- `ffiopen_in` and `ffiopen_out` against the model.
use cakeml.Prelude.{
  ℕ, ◌^◌, ◌≤◌, ◌<◌, ◌≡◌, refl, arith, Option, none, some, List, ◌∷◌, ◌++◌, length, drop, set, true,
  leb, le→leb, ltb, lt→ltb,
}
use cakeml.Machine.Read.{◌>>=◌, ◌>>◌}
use cakeml.Machine.Buffer.{call}
use cakeml.Marshal.{n2w8}
use cakeml.Files.Fs.{IoFs, read_mode, write_mode, require, open_file, open_file_truncate}
use cakeml.Files.Fs.Laws.{open_file-le-max_fd, open_file_truncate-le-max_fd}
use cakeml.Files.Fs.Calls.{◌orelse◌, ffi_open_in, ffi_open_out, get_null_term_str}
use cakeml.Files.Syscalls.{Os, Implements, OpenAs, HasFile}
use cakeml.Files.{Variant, store_fd, ffiopen_in, ffiopen_out}
use cakeml.Files.Steps.{store_fd_ok, store_fd_error, check-true}
use cakeml.Files.Refines.{Agrees}
use cakeml.Files.Refines.Strings.{c_string-get_null_term_str}

module _ (os : Os) (impl : Implements os) where
  open os use {World}
  open impl use {fs_of}

  -- Both calls after the system call, by what the file system says to it.
  open-Agrees :
      (v : Variant) (a : List ℕ) (w : World) (o : Option (ℕ × IoFs)) (answer : ℕ × World)
      → 9 ≤ length a
      → ((fd : ℕ) (fs : IoFs) → o ≡ some (fd, fs) → fd < 2 ^ 31)
      → OpenAs os fs_of w o answer
      → Agrees fs_of
          (store_fd os v 1 answer.0 (call a answer.1))
          ((do (fd, fs) ← o; some (0 ∷ n2w8 fd ++ drop 9 a, fs)) orelse some (set a 0 1, fs_of w))
  open-Agrees v a w none (r, w') room small (failed, same) = record {
    out = set a 0 1;
    world = w';
    returns = store_fd_error os v w' 1 r a (rw failed) (omega arith);
    promised = rw same;
  }
  open-Agrees v a w (some (fd, fs)) (r, w') room small (e, same) = record {
    out = 0 ∷ n2w8 fd ++ drop 9 a;
    world = w';
    returns = rw e (store_fd_ok os v w' 1 fd a (small fd fs refl) room);
    promised = rw same;
  }

  -- Over an operating system with the files of the model, in any copy of the C, where the configuration
  -- is a terminated name, the array has at least nine bytes, and descriptors stay below 2 ^ 31:
  -- `ffiopen_in` returns with the bytes and the files that the model promises, on success and on
  -- failure.
  pub ffiopen_in-refines :
      (v : Variant) (c a name : List ℕ) (w : World)
      → get_null_term_str c ≡ some name
      → 9 ≤ length a
      → (fs_of w).max_fd < 2 ^ 31
      → Agrees fs_of (ffiopen_in os v c (length a) (call a w)) (ffi_open_in c a (fs_of w))
  unfolding ffiopen_in ffi_open_in
  ffiopen_in-refines v c a name w str room small =
      let long : leb 9 (length a) ≡ true = le→leb 9 (length a) room in
      let pos : ltb 0 (length a) ≡ true = lt→ltb 0 (length a) (omega arith) in
      rw (check-true v (call a w) long, c_string-get_null_term_str c, str, long, pos)
        (open-Agrees v a w (open_file name (fs_of w) read_mode 0) _ room
          (λ fd fs e. omega (arith, open_file-le-max_fd name (fs_of w) read_mode 0 fd fs e))
          (impl.open_in name w))

  -- The model counts a descriptor above 255 as a failure, which the C does not.
  require_small :
      (a : List ℕ) (fs0 : IoFs) (o : Option (ℕ × IoFs))
      → ((fd : ℕ) (fs : IoFs) → o ≡ some (fd, fs) → fd ≤ 255)
      → ((do (fd, fs) ← o; require (leb fd 255); some (0 ∷ n2w8 fd ++ drop 9 a, fs))
          orelse some (set a 0 1, fs0))
        ≡ ((do (fd, fs) ← o; some (0 ∷ n2w8 fd ++ drop 9 a, fs)) orelse some (set a 0 1, fs0))
  require_small a fs0 none small = refl
  require_small a fs0 (some (fd, fs)) small = rw (le→leb fd 255 (small fd fs refl))

  -- Over an operating system with the files of the model, in a copy of the C with the error code 1,
  -- where the configuration is the terminated name of a file that exists, the array has at least nine
  -- bytes, and descriptors stay below 256: `ffiopen_out` returns with the bytes and the files that the
  -- model promises, on success and on failure.
  pub ffiopen_out-refines :
      (v : Variant) (c a name : List ℕ) (w : World)
      → v.open_out_error ≡ 1
      → get_null_term_str c ≡ some name
      → HasFile (fs_of w) name
      → 9 ≤ length a
      → (fs_of w).max_fd ≤ 255
      → Agrees fs_of (ffiopen_out os v c (length a) (call a w)) (ffi_open_out c a (fs_of w))
  unfolding ffiopen_out ffi_open_out
  ffiopen_out-refines v c a name w code str exists room small =
      let long : leb 9 (length a) ≡ true = le→leb 9 (length a) room in
      let pos : ltb 0 (length a) ≡ true = lt→ltb 0 (length a) (omega arith) in
      let bound : (fd : ℕ) (fs : IoFs)
          → open_file_truncate name (fs_of w) write_mode ≡ some (fd, fs)
          → fd ≤ 255 =
        λ fd fs e. omega (arith, open_file_truncate-le-max_fd name (fs_of w) write_mode fd fs e) in
      rw
        (
          check-true v (call a w) long,
          c_string-get_null_term_str c,
          str,
          code,
          long,
          pos,
          require_small a (fs_of w) (open_file_truncate name (fs_of w) write_mode) bound,
        )
        (open-Agrees v a w (open_file_truncate name (fs_of w) write_mode) _ room
          (λ fd fs e. omega (arith, bound fd fs e)) (impl.open_out name w exists))
