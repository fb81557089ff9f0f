-- ===== src/Files/Refines/Session.antt =====
-- A write and a read of the same place, through the C.
use cakeml.Prelude.{
  ℕ, suc, ◌+◌, ◌*◌, ◌^◌, ◌≤◌, ◌<◌, ◌≡◌, refl, sym, ap, subst, ◌∙◌, arith, true, min, some, List,
  ◌∷◌, ◌++◌, length, length-take, take, drop, leb, le→leb, ◌==◌,
}
use mathlib.Core.Option.{some-injective}
use cakeml.Machine.Word.{IsByte, IsBytes}
use cakeml.Machine.Run.{ok}
use cakeml.Machine.Buffer.{call}
use cakeml.Marshal.{n2w2, w22n, w82n}
use cakeml.Files.Fs
use cakeml.Files.Fs.{IoFs, Fd, alookup, is_read, require}
use cakeml.Files.Fs.Calls.{ffi_read, ffi_write}
use cakeml.Files.Fs.RoundTrip.{SamePlace, write_read}
use cakeml.Files.Syscalls.{Os, Implements, Allows}
use cakeml.Files.{Variant, ffiread, ffiwrite}
use cakeml.Files.Refines.Transfer.{ffiread-refines, ffiwrite-refines}

-- The eight bytes of a descriptor.
pub record IsConf (c : List ℕ) (fd : ℕ) : Type 0 where
  pub bytes : IsBytes c
  pub eight : length c ≡ 8
  pub conf : w82n c ≡ some fd
  pub small : fd < 2 ^ 32

ffi_write_lem :
    (c bytes : List ℕ) (fd n1 n0 k : ℕ) (fs fs1 : IoFs)
    → IsConf c fd
    → n1 * 256 + n0 ≡ length bytes
    → Fs.write fd (length bytes) bytes fs ≡ some (k, fs1)
    → ffi_write c (n1 ∷ n0 ∷ 0 ∷ 0 ∷ bytes) fs ≡ some (0 ∷ n2w2 k ++ (0 ∷ bytes), fs1)
unfolding ffi_write w22n
ffi_write_lem c bytes fd n1 n0 k fs fs1 is size wrote =
    let c8 : (length c == 8) ≡ true = (let e = is.eight in ground arith) in
    let fits : leb 0 (length bytes) ≡ true = le→leb 0 (length bytes) (omega arith) in
    rw (c8, fits, is.conf, size, wrote)

ffi_read_lem :
    (c l tll : List ℕ) (fd n1 n0 pad1 pad2 : ℕ) (fs fs1 : IoFs)
    → IsConf c fd
    → n1 * 256 + n0 ≤ length tll
    → Fs.read fd fs (n1 * 256 + n0) ≡ some (l, fs1)
    → ffi_read c (n1 ∷ n0 ∷ pad1 ∷ pad2 ∷ tll) fs
      ≡ some (0 ∷ n2w2 (length l) ++ (pad2 ∷ l ++ drop (length l) tll), fs1)
unfolding ffi_read w22n
ffi_read_lem c l tll fd n1 n0 pad1 pad2 fs fs1 is room got =
    let c8 : (length c == 8) ≡ true = (let e = is.eight in ground arith) in
    let fits : leb (n1 * 256 + n0) (length tll) ≡ true = le→leb (n1 * 256 + n0) (length tll) room in
    rw (c8, fits, is.conf, got)

module _ (os : Os) (impl : Implements os) (v : Variant) where
  open os use {World}
  open impl use {fs_of}

  -- Over an operating system with the files of the model, in any copy of the C: a write of bytes to a
  -- file, and then a read of as many as it stored from the same place by another descriptor, both
  -- return. The write stores as many as the first transfer takes, and the read, if the second transfer
  -- takes as many and its array has room for them, answers with just these bytes.
  pub written_is_read :
      (wfd rfd p j i : ℕ) (cw cr content bytes tll : List ℕ) (n1 n0 k1 k0 pad1 pad2 : ℕ) (w : World)
      → IsConf cw wfd
      → IsConf cr rfd
      → SamePlace (fs_of w) wfd rfd content p j i
      → IsByte n1
      → IsByte n0
      → IsByte k1
      → IsByte k0
      → n1 * 256 + n0 ≡ length bytes
      → k1 * 256 + k0 ≡ min (length bytes) j
      → min (length bytes) j ≤ suc i
      → min (length bytes) j ≤ length tll
      → let k = min (length bytes) j in
        let a = n1 ∷ n0 ∷ 0 ∷ 0 ∷ bytes in
        let b = k1 ∷ k0 ∷ pad1 ∷ pad2 ∷ tll in
        (w1 : World) × (w2 : World) × (ffiwrite os v cw (length cw) (length a) (call a w)
          ≡ ok tt (call (0 ∷ n2w2 k ++ (0 ∷ bytes)) w1))
        × (ffiread os v cr (length cr) (length b) (call b w1)
            ≡ ok tt (call (0 ∷ n2w2 k ++ (pad2 ∷ take k bytes ++ drop k tll)) w2))
  written_is_read wfd rfd p j i cw cr content bytes tll n1 n0 k1 k0 pad1 pad2 w isw isr place h1 h0
        g1 g0 size count short room =
      let k = min (length bytes) j in
      let (fs1, fs2, wrote, got, kept) =
        write_read (fs_of w) wfd rfd p j i content bytes place short in
      let first =
        ffiwrite-refines os impl v cw wfd isw.bytes isw.eight isw.conf isw.small n1 n0 0 0 bytes w
          h1 h0 (omega arith) (omega arith) (omega arith) in
      let both =
        some-injective _ _ (
          sym (ffi_write_lem cw bytes wfd n1 n0 k (fs_of w) fs1 isw size wrote) ∙ first.promised) in
      let files : fs1 ≡ fs_of first.world = ap (λ (x : List ℕ × IoFs). x.1) both in
      let stored : 0 ∷ n2w2 k ++ (0 ∷ bytes) ≡ first.out = ap (λ (x : List ℕ × IoFs). x.0) both in
      let reader1 : Allows (λ d. is_read d.mode) fs1 rfd = λ d e.
        subst (λ (x : Fd). is_read x.mode ≡ true)
          (some-injective _ _ (sym (kept ∙ place.reader) ∙ e)) refl in
      let second =
        ffiread-refines os impl v cr rfd isr.bytes isr.eight isr.conf isr.small k1 k0 pad1 pad2 tll
          first.world g1 g0 (omega arith)
          (subst (λ (x : IoFs). Allows (λ d. is_read d.mode) x rfd) files reader1) in
      let got1 : Fs.read rfd (fs_of first.world) (k1 * 256 + k0) ≡ some (take k bytes, fs2) =
        rw (count, ← files) got in
      let replied = some-injective _ _ (
        sym (
          ffi_read_lem cr (take k bytes) tll rfd k1 k0 pad1 pad2 (fs_of first.world) fs2 isr
            (omega arith) got1)
        ∙ second.promised) in
      let l : length (take k bytes) ≡ k = omega (arith, length-take k bytes) in
      (
        first.world,
        second.world,
        first.returns ∙ ap (λ t. ok tt (call t first.world)) (sym stored),
        second.returns
            ∙ ap (λ t. ok tt (call t second.world))
                (sym (ap (λ (x : List ℕ × IoFs). x.0) replied)
                  ∙ ap (λ (m : ℕ). 0 ∷ n2w2 m ++ (pad2 ∷ take k bytes ++ drop m tll)) l),
      )
