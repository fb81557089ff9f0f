-- ===== src/Tests/OnSession.antt =====
-- A write of "xyz" over the second character of a file that holds "abc", of which two are stored, and a
-- read of two from there.
use cakeml.Prelude.{ℕ, ◌≡◌, refl, arith, some, List, [], ◌∷◌, ◌++◌, take, drop}
use cakeml.Machine.Word.{IsByte, IsBytes}
use cakeml.Machine.Run.{ok}
use cakeml.Machine.Buffer.{call}
use cakeml.Marshal.{n2w2, w82n}
use cakeml.Files.{basis, ffiread, ffiwrite}
use cakeml.Files.Fs.{file, read_mode, write_mode, IoFs, alookup, str_eq, inode_eq}
use cakeml.Files.Fs.RoundTrip.{SamePlace}
use cakeml.Files.Model.{model_os, model-Implements}
use cakeml.Files.Refines.Session.{IsConf, written_is_read}

abbrev abc : List ℕ
abc = b'a' ∷ b'b' ∷ b'c' ∷ []

abbrev xyz : List ℕ
xyz = b'x' ∷ b'y' ∷ b'z' ∷ []

abbrev shared : IoFs
shared = record {
  inode_tbl = (file (b'1' ∷ []), abc) ∷ [];
  files = (b'f' ∷ [], b'1' ∷ []) ∷ [];
  infds =
      (0, record { inode = file (b'1' ∷ []); mode = read_mode; pos = 1 })
      ∷ (1, record { inode = file (b'1' ∷ []); mode = write_mode; pos = 1 })
      ∷ [];
  numchars = λ k. some 2;
  max_fd = 20;
}

abbrev conf_of : ℕ → List ℕ
conf_of fd = 0 ∷ 0 ∷ 0 ∷ 0 ∷ 0 ∷ 0 ∷ 0 ∷ fd ∷ []

zero-IsBytes : IsBytes (conf_of 0)
zero-IsBytes = let z : IsByte 0 = omega arith in (z, (z, (z, (z, (z, (z, (z, (z, tt))))))))

one-IsBytes : IsBytes (conf_of 1)
one-IsBytes = let z : IsByte 0 = omega arith in (z, (z, (z, (z, (z, (z, (z, (omega arith, tt))))))))

zero-IsConf : IsConf (conf_of 0) 0
unfolding w82n
zero-IsConf = record { bytes = zero-IsBytes; eight = refl; conf = refl; small = omega arith }

one-IsConf : IsConf (conf_of 1) 1
unfolding w82n
one-IsConf = record { bytes = one-IsBytes; eight = refl; conf = refl; small = omega arith }

shared-SamePlace : SamePlace shared 1 0 abc 1 2 2
unfolding alookup inode_eq str_eq
shared-SamePlace = record {
  inode = file (b'1' ∷ []);
  differ = λ e. absurd (omega (arith, e));
  writer = refl;
  reader = refl;
  holds = refl;
  inside = omega arith;
  first = refl;
  second = refl;
}

written_is_read_example :
    (w1 : IoFs) × (w2 : IoFs) × (ffiwrite model_os basis
        (conf_of 1)
        8
        7
        (call (0 ∷ 3 ∷ 0 ∷ 0 ∷ xyz) shared)
      ≡ ok tt (call (0 ∷ n2w2 2 ++ (0 ∷ xyz)) w1))
    × (ffiread model_os basis (conf_of 0) 8 7 (call (0 ∷ 2 ∷ 5 ∷ 5 ∷ 9 ∷ 9 ∷ 9 ∷ []) w1)
        ≡ ok tt (call (0 ∷ n2w2 2 ++ (5 ∷ take 2 xyz ++ drop 2 (9 ∷ 9 ∷ 9 ∷ []))) w2))
written_is_read_example =
    written_is_read model_os model-Implements basis 1 0 1 2 2 (conf_of 1) (conf_of 0) abc xyz
      (9 ∷ 9 ∷ 9 ∷ []) 0 3 0 2 5 5 shared one-IsConf zero-IsConf shared-SamePlace (omega arith)
      (omega arith) (omega arith) (omega arith) refl refl (omega arith) (omega arith)
