-- ===== src/Files/Refines/Transfer.antt =====
-- `ffiread` and `ffiwrite` against the model. The model takes the descriptor as a 64-bit
-- number and the C as an `int`, hence the bound on it.
use cakeml.Prelude.{
  ℕ, suc, ◌+◌, ◌*◌, ◌^◌, ◌≤◌, ◌<◌, ◌≡◌, refl, ap, subst, arith, true, Option, none, some, List, [],
  ◌∷◌, ◌++◌, length, take, drop, leb, le→leb, ◌==◌, length-drop, length-take,
}
use cakeml.Machine.Word.{IsByte, IsBytes, minus_one64}
use cakeml.Machine.Read.{◌>>=◌}
use cakeml.Machine.Run
use cakeml.Machine.Run.{ok}
use cakeml.Machine.Buffer.{call, copy_to}
use cakeml.Machine.Buffer.Laws.{copy_to_lem, copy_from_lem, overwrite_front}
use cakeml.Marshal.{n2w2, byte2_to_int, w22n, w82n}
use cakeml.Marshal.Words.{join2_lem}
use cakeml.Files.Fs
use cakeml.Files.Fs.{IoFs, require, close_fd, is_read, is_file}
use cakeml.Files.Fs.Laws.{read-length, write-take, write-le}
use cakeml.Files.Fs.Calls.{◌orelse◌, ffi_read, ffi_write}
use cakeml.Files.Syscalls.{Os, Implements, ReadAs, WriteAs, Allows}
use cakeml.Files.{Variant, byte2_at, store_count, ffiread, ffiwrite}
use cakeml.Files.Steps.{store_count_ok, store_count_error, check-true}
use cakeml.Files.Refines.{Agrees}
use cakeml.Files.Refines.Descriptor.{fd_of_conf}

drop_four : (k x0 x1 x2 x3 : ℕ) (xs : List ℕ) → drop (4 + k) (x0 ∷ x1 ∷ x2 ∷ x3 ∷ xs) ≡ drop k xs
drop_four k x0 x1 x2 x3 xs = ap (λ (n : ℕ). drop n (x0 ∷ x1 ∷ x2 ∷ x3 ∷ xs)) four
  where
    four : 4 + k ≡ suc (suc (suc (suc k)))
    four = omega arith

module _ (os : Os) (impl : Implements os) (v : Variant) (c : List ℕ) (fd : ℕ) (bytes : IsBytes c)
    (eight : length c ≡ 8) (conf : w82n c ≡ some fd) (small : fd < 2 ^ 32) where
  open os use {World}
  open impl use {fs_of}

  read-Agrees :
      (n1 n0 pad1 pad2 : ℕ) (tll : List ℕ) (w : World) (o : Option (List ℕ × IoFs))
      (answer : (ℕ × List ℕ) × World)
      → ((l : List ℕ) (fs : IoFs)
          → o ≡ some (l, fs)
          → (length l ≤ length tll) × (length l < 2 ^ 16))
      → ReadAs os fs_of w o answer
      → Agrees fs_of
          (Run.and_then
            (copy_to 4 answer.0.1 (call (n1 ∷ n0 ∷ pad1 ∷ pad2 ∷ tll) answer.1))
            (λ _. store_count os v answer.0.0))
          ((do (l, fs) ← o; some (0 ∷ n2w2 (length l) ++ (pad2 ∷ l ++ drop (length l) tll), fs))
            orelse some (1 ∷ n0 ∷ pad1 ∷ pad2 ∷ tll, fs_of w))
  read-Agrees n1 n0 pad1 pad2 tll w none ((r, got), w') fits (failed, nothing, same) = record {
    out = 1 ∷ n0 ∷ pad1 ∷ pad2 ∷ tll;
    world = w';
    returns =
        rw (nothing, failed, copy_to_lem 4 [] (n1 ∷ n0 ∷ pad1 ∷ pad2 ∷ tll) w' (omega arith))
          (store_count_error os v w' minus_one64 (n1 ∷ n0 ∷ pad1 ∷ pad2 ∷ tll) refl (omega arith));
    promised = rw same;
  }
  read-Agrees n1 n0 pad1 pad2 tll w (some (l, fs)) ((r, got), w') fits (e, put, same) = record {
    out = 0 ∷ n2w2 (length l) ++ (pad2 ∷ l ++ drop (length l) tll);
    world = w';
    returns =
        let room = fits l fs refl in
        rw
          (
            put,
            e,
            copy_to_lem 4 l (n1 ∷ n0 ∷ pad1 ∷ pad2 ∷ tll) w' (omega arith),
            overwrite_front l tll room.0,
          )
          (store_count_ok os v w' (length l) n1 n0 pad1 (pad2 ∷ l ++ drop (length l) tll)
            (omega arith));
    promised = rw same;
  }

  -- Over an operating system with the files of the model, in any copy of the C, where the configuration
  -- is the eight bytes of a descriptor below 2 ^ 32 that is not open for writing, and the array has room
  -- for as many bytes as it asks for: `ffiread` returns with the bytes and the files that the model
  -- promises, whether the read succeeds, is short or fails.
  pub ffiread-refines :
      (n1 n0 pad1 pad2 : ℕ) (tll : List ℕ) (w : World)
      → IsByte n1
      → IsByte n0
      → n1 * 256 + n0 ≤ length tll
      → Allows (λ d. is_read d.mode) (fs_of w) fd
      → let a = n1 ∷ n0 ∷ pad1 ∷ pad2 ∷ tll in
        Agrees fs_of (ffiread os v c (length c) (length a) (call a w)) (ffi_read c a (fs_of w))
  unfolding ffiread ffi_read byte2_at byte2_to_int w22n
  ffiread-refines n1 n0 pad1 pad2 tll w h1 h0 room reader =
      let a = n1 ∷ n0 ∷ pad1 ∷ pad2 ∷ tll in
      let n = n1 * 256 + n0 in
      let c8 : (length c == 8) ≡ true = ground arith in
      let long : leb (n + 4) (length a) ≡ true = le→leb (n + 4) (length a) (omega arith) in
      let fits : leb n (length tll) ≡ true = le→leb n (length tll) room in
      let bound : (l : List ℕ) (fs : IoFs)
          → Fs.read fd (fs_of w) n ≡ some (l, fs)
          → (length l ≤ length tll) × (length l < 2 ^ 16) =
        λ l fs e. omega (arith, read-length fd (fs_of w) n l fs e) in
      rw
        (
          check-true v (call a w) c8,
          fd_of_conf c fd bytes conf small,
          join2_lem n1 n0 h1 h0,
          check-true v (call a w) long,
          c8,
          fits,
          conf,
        )
        (read-Agrees n1 n0 pad1 pad2 tll w (Fs.read fd (fs_of w) n) _ bound
          (impl.reads fd n w (omega arith) reader))

  write-Agrees :
      (n1 n0 off1 off0 : ℕ) (tll : List ℕ) (w : World) (o : Option (ℕ × IoFs)) (answer : ℕ × World)
      → ((k : ℕ) (fs : IoFs) → o ≡ some (k, fs) → k < 2 ^ 16)
      → WriteAs os fs_of w o answer
      → Agrees fs_of (store_count os v answer.0 (call (n1 ∷ n0 ∷ off1 ∷ off0 ∷ tll) answer.1)) (
          (do (nw, fs) ← o; some (0 ∷ n2w2 nw ++ (off0 ∷ tll), fs))
          orelse some (1 ∷ n0 ∷ off1 ∷ off0 ∷ tll, fs_of w))
  write-Agrees n1 n0 off1 off0 tll w none (r, w') fits (failed, same) = record {
    out = 1 ∷ n0 ∷ off1 ∷ off0 ∷ tll;
    world = w';
    returns =
        rw failed
          (store_count_error os v w' minus_one64 (n1 ∷ n0 ∷ off1 ∷ off0 ∷ tll) refl (omega arith));
    promised = rw same;
  }
  write-Agrees n1 n0 off1 off0 tll w (some (k, fs)) (r, w') fits (e, same) = record {
    out = 0 ∷ n2w2 k ++ (off0 ∷ tll);
    world = w';
    returns =
        let b = fits k fs refl in
        rw e (store_count_ok os v w' k n1 n0 off1 (off0 ∷ tll) (omega arith));
    promised = rw same;
  }

  -- Over an operating system with the files of the model, in any copy of the C, where the configuration
  -- is the eight bytes of a descriptor below 2 ^ 32, and the array holds as many bytes as it asks to
  -- write from its offset on: `ffiwrite` returns with the bytes and the files that the model promises,
  -- whether the write succeeds, is short or fails.
  pub ffiwrite-refines :
      (n1 n0 off1 off0 : ℕ) (tll : List ℕ) (w : World)
      → IsByte n1
      → IsByte n0
      → IsByte off1
      → IsByte off0
      → (n1 * 256 + n0) + (off1 * 256 + off0) ≤ length tll
      → let a = n1 ∷ n0 ∷ off1 ∷ off0 ∷ tll in
        Agrees fs_of (ffiwrite os v c (length c) (length a) (call a w)) (ffi_write c a (fs_of w))
  unfolding ffiwrite ffi_write byte2_at byte2_to_int w22n
  ffiwrite-refines n1 n0 off1 off0 tll w h1 h0 g1 g0 room =
      let a = n1 ∷ n0 ∷ off1 ∷ off0 ∷ tll in
      let n = n1 * 256 + n0 in
      let off = off1 * 256 + off0 in
      let sent = take n (drop off tll) in
      let c8 : (length c == 8) ≡ true = ground arith in
      let long : leb (n + off + 4) (length a) ≡ true =
        le→leb (n + off + 4) (length a) (omega arith) in
      let inside : leb off (length tll) ≡ true = le→leb off (length tll) (omega arith) in
      let behind : n ≤ length (drop off tll) = omega (arith, length-drop off tll) in
      let size : length sent ≡ n = omega (arith, length-take n (drop off tll)) in
      let few : length sent < 2 ^ 16 = omega arith in
      rw
        (
          check-true v (call a w) c8,
          fd_of_conf c fd bytes conf small,
          join2_lem n1 n0 h1 h0,
          join2_lem off1 off0 g1 g0,
          check-true v (call a w) long,
          copy_from_lem (4 + off) n a w (omega arith),
          drop_four off n1 n0 off1 off0 tll,
          c8,
          inside,
          conf,
          write-take fd n (drop off tll) (fs_of w) behind,
        )
        (write-Agrees n1 n0 off1 off0 tll w (Fs.write fd n sent (fs_of w)) _
          (λ k fs e. omega (arith, write-le fd n sent (fs_of w) k fs e))
          (subst (λ (k : ℕ). WriteAs os fs_of w (Fs.write fd k sent (fs_of w)) (os.write fd sent w))
            size (impl.writes fd sent w few)))
