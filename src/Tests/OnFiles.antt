-- ===== src/Tests/OnFiles.antt =====
-- The file calls, on a file system with one file "f" that holds "abc".
use cakeml.Prelude.{ℕ, ◌≡◌, refl, subst, arith, true, some, List, [], ◌∷◌, length}
use mathlib.Core.Option.{some-injective}
use cakeml.Machine.Word.{IsByte, IsBytes}
use cakeml.Machine.Run.{ok}
use cakeml.Machine.Buffer.{call, copy_from, slice, store}
use cakeml.Marshal.{w82n, join2, join8, int_to_byte2, byte2_to_int, byte8_to_int, n2w2}
use cakeml.Files.{store_count, basis, ag32, ffiopen_in, ffiopen_out, ffiread, ffiwrite, fficlose}
use cakeml.Files.Fs
use cakeml.Files.Fs.{
  is_read, is_file, Inode, ustream, file, alookup, afupdkey, bump_fd, Mode, read_mode, write_mode,
  Fd, IoFs,
}
use cakeml.Files.Fs.Calls.{
  get_null_term_str, ffi_open_in, ffi_open_out, ffi_read, ffi_write, ffi_close,
}
use cakeml.Files.Syscalls.{Allows, HasFile}
use cakeml.Files.Model.{model_os, model-Implements, self}
use cakeml.Files.Refines.{Agrees}
use cakeml.Files.Refines.Open.{ffiopen_in-refines, ffiopen_out-refines}
use cakeml.Files.Refines.Transfer.{ffiread-refines, ffiwrite-refines}
use cakeml.Files.Refines.Close.{fficlose-refines}

abbrev name : List ℕ
name = b'f' ∷ []

abbrev inode : List ℕ
inode = b'1' ∷ []

abbrev reader : Fd
reader = record { inode = file inode; mode = read_mode; pos = 1 }

abbrev writer : Fd
writer = record { inode = file inode; mode = write_mode; pos = 0 }

-- Descriptor 0 reads the file from its second character, descriptor 1 writes it from the start; no
-- transfer takes more than two characters.
abbrev disk : IoFs
disk = record {
  inode_tbl = (file inode, b'a' ∷ b'b' ∷ b'c' ∷ []) ∷ [];
  files = (name, inode) ∷ [];
  infds = (0, reader) ∷ (1, writer) ∷ [];
  numchars = λ k. some 2;
  max_fd = 20;
}

abbrev path : List ℕ
path = b'f' ∷ 0 ∷ []

abbrev nine : List ℕ
nine = 7 ∷ 7 ∷ 7 ∷ 7 ∷ 7 ∷ 7 ∷ 7 ∷ 7 ∷ 7 ∷ []

abbrev conf_of : ℕ → List ℕ
conf_of fd = 0 ∷ 0 ∷ 0 ∷ 0 ∷ 0 ∷ 0 ∷ 0 ∷ fd ∷ []

path_string : get_null_term_str path ≡ some name
unfolding get_null_term_str
path_string = refl

zero_conf : w82n (conf_of 0) ≡ some 0
unfolding w82n
zero_conf = refl

one_conf : w82n (conf_of 1) ≡ some 1
unfolding w82n
one_conf = refl

conf-IsBytes : (fd : ℕ) → IsByte fd → IsBytes (conf_of fd)
conf-IsBytes fd h = let z : IsByte 0 = omega arith in (z, (z, (z, (z, (z, (z, (z, (h, tt))))))))

has_file : HasFile disk name
unfolding alookup Fs.str_eq
has_file = (inode, refl)

zero_reads : Allows (λ d. is_read d.mode) disk 0
unfolding alookup
zero_reads d e = subst (λ (x : Fd). is_read x.mode ≡ true) (some-injective _ _ e) refl

one_is_file : Allows (λ d. is_file d.inode) disk 1
unfolding alookup
one_is_file d e = subst (λ (x : Fd). is_file x.inode ≡ true) (some-injective _ _ e) refl

ffiopen_in-refines_example :
    Agrees self
      (ffiopen_in model_os ag32 path (length nine) (call nine disk))
      (ffi_open_in path nine disk)
ffiopen_in-refines_example =
    ffiopen_in-refines model_os model-Implements ag32 path nine name disk path_string (omega arith)
      (omega arith)

ffiopen_out-refines_example :
    Agrees self
      (ffiopen_out model_os basis path (length nine) (call nine disk))
      (ffi_open_out path nine disk)
ffiopen_out-refines_example =
    ffiopen_out-refines model_os model-Implements basis path nine name disk refl path_string
      has_file (omega arith) (omega arith)

ffiread-refines_example :
    Agrees self
      (ffiread model_os basis (conf_of 0) 8 7 (call (0 ∷ 3 ∷ 0 ∷ 0 ∷ 9 ∷ 9 ∷ 9 ∷ []) disk))
      (ffi_read (conf_of 0) (0 ∷ 3 ∷ 0 ∷ 0 ∷ 9 ∷ 9 ∷ 9 ∷ []) disk)
ffiread-refines_example =
    ffiread-refines model_os model-Implements basis (conf_of 0) 0 (conf-IsBytes 0 (omega arith))
      refl zero_conf (omega arith) 0 3 0 0 (9 ∷ 9 ∷ 9 ∷ []) disk (omega arith) (omega arith)
      (omega arith) zero_reads

ffiwrite-refines_example :
    Agrees self
      (ffiwrite model_os basis
        (conf_of 1)
        8
        8
        (call (0 ∷ 3 ∷ 0 ∷ 1 ∷ 9 ∷ b'x' ∷ b'y' ∷ b'z' ∷ []) disk))
      (ffi_write (conf_of 1) (0 ∷ 3 ∷ 0 ∷ 1 ∷ 9 ∷ b'x' ∷ b'y' ∷ b'z' ∷ []) disk)
ffiwrite-refines_example =
    ffiwrite-refines model_os model-Implements basis (conf_of 1) 1 (conf-IsBytes 1 (omega arith))
      refl one_conf (omega arith) 0 3 0 1 (9 ∷ b'x' ∷ b'y' ∷ b'z' ∷ []) disk (omega arith)
      (omega arith) (omega arith) (omega arith) (omega arith)

fficlose-refines_example :
    Agrees self
      (fficlose model_os ag32 (conf_of 1) 8 1 (call (5 ∷ []) disk))
      (ffi_close (conf_of 1) (5 ∷ []) disk)
fficlose-refines_example =
    fficlose-refines model_os model-Implements ag32 (conf_of 1) 1 (conf-IsBytes 1 (omega arith))
      refl one_conf (omega arith) 5 [] disk one_is_file

-- The write of the example stores two of the three characters.
abbrev written : IoFs
written = record disk {
  inode_tbl = (file inode, b'x' ∷ b'y' ∷ b'c' ∷ []) ∷ [];
  infds = (0, reader) ∷ (1, record writer { pos = 2 }) ∷ [];
}

write_run :
    ffiwrite model_os basis
      (conf_of 1)
      8
      8
      (call (0 ∷ 3 ∷ 0 ∷ 1 ∷ 9 ∷ b'x' ∷ b'y' ∷ b'z' ∷ []) disk)
    ≡ ok tt (call (0 ∷ 0 ∷ 2 ∷ 1 ∷ 9 ∷ b'x' ∷ b'y' ∷ b'z' ∷ []) written)
unfolding ffiwrite Fs.write copy_from slice store int_to_byte2 store_count byte2_to_int byte8_to_int
    n2w2 join2 join8 alookup afupdkey bump_fd
write_run = refl
