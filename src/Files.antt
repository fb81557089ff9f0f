-- ===== src/Files.antt =====
-- The file calls of basis/basis_ffi.c: `ffiopen_in`, `ffiopen_out`, `ffiread`, `ffiwrite` and
-- `fficlose`, over the system calls of an operating system that is a parameter. A `Variant` says in
-- what the copy of compiler/bootstrap/compilation/ag32/32/basis_ffi.c differs: it has no assertions,
-- and another error code in `ffiopen_out`.
pub mod Syscalls
pub mod Fs
pub mod Steps
pub mod Refines
pub mod Model
pub mod Safety
pub mod Descriptors
use cakeml.Prelude.{
  ℕ, ◌+◌, ◌≤◌, Bool, true, false, not, Option, none, some, List, [], ◌∷◌, ◌==◌, leb, if◌then◌else◌,
}
use cakeml.Machine.Word.{u32, neg32}
use cakeml.Machine.Run.{Run, ok, M, pure, lift, assert, ◌>>=◌, ◌>>◌}
use cakeml.Machine.Buffer.{Call, c_string, store, copy_from, copy_to}
use cakeml.Marshal.{int_to_byte2, int_to_byte8, byte2_to_int, byte8_to_int}
use cakeml.Files.Syscalls.{Os, Flag, Perm}

pub record Variant : Type 0 where
  pub checks : Bool
  pub open_out_error : ℕ

-- basis/basis_ffi.c and pancake/temp/basis_ffi.c.
abbrev pub basis : Variant
basis = record { checks = true; open_out_error = 1 }

-- The copy for ag32.
abbrev pub ag32 : Variant
ag32 = record { checks = false; open_out_error = 255 }

module _ {W : Type 0} where
  abbrev pub check : Variant → Bool → M (Call W) (Unit {0})
  check v test = if v.checks then assert test else pure tt

  -- A system call changes the world, and nothing in the array.
  abbrev pub syscall : {A : Type 0} → (W → A × W) → M (Call W) A
  syscall f s = let (r, w) = f s.world in ok r (record s { world = w })

  unfoldable pub byte2_at : ℕ → M (Call W) ℕ
  byte2_at i s = lift (byte2_to_int s.a i) s

module _ (os : Os) (v : Variant) where
  open os use {World, open_file, read, write, close}

  -- What both `open` calls do with the descriptor; the error code is the one of the call.
  unfoldable pub store_fd : ℕ → ℕ → M (Call World) (Unit {0})
  store_fd error fd = if not (neg32 fd) then (do store 0 0; int_to_byte8 fd 1) else store 0 error

  unfoldable pub ffiopen_in : (c : List ℕ) (alen : ℕ) → M (Call World) (Unit {0})
  unfolding store_fd
  ffiopen_in c alen = do
    check v (leb 9 alen)
    path ← lift (c_string c)
    fd ← syscall (open_file path (Flag.rdonly ∷ []) [])
    store_fd 1 fd

  unfoldable pub ffiopen_out : (c : List ℕ) (alen : ℕ) → M (Call World) (Unit {0})
  unfolding store_fd
  ffiopen_out c alen = do
    check v (leb 9 alen)
    path ← lift (c_string c)
    fd ← syscall (
        open_file path (Flag.rdwr ∷ Flag.creat ∷ Flag.trunc ∷ [])
          (Perm.irusr ∷ Perm.iwusr ∷ Perm.irgrp ∷ Perm.iroth ∷ []))
    store_fd v.open_out_error fd

  -- What `ffiread` and `ffiwrite` do with the number of bytes, an `ssize_t` assigned to an `int`.
  unfoldable pub store_count : ℕ → M (Call World) (Unit {0})
  store_count r = let n = u32 r in if neg32 n then store 0 1 else (do store 0 0; int_to_byte2 n 1)

  unfoldable pub ffiread : (c : List ℕ) (clen alen : ℕ) → M (Call World) (Unit {0})
  unfolding byte2_at store_count
  ffiread c clen alen = do
    check v (clen == 8)
    fd ← lift (byte8_to_int c 0)
    n ← byte2_at 0
    check v (leb (n + 4) alen)
    (r, got) ← syscall (read fd n)
    copy_to 4 got
    store_count r

  unfoldable pub ffiwrite : (c : List ℕ) (clen alen : ℕ) → M (Call World) (Unit {0})
  unfolding byte2_at store_count
  ffiwrite c clen alen = do
    check v (clen == 8)
    fd ← lift (byte8_to_int c 0)
    n ← byte2_at 0
    off ← byte2_at 2
    check v (leb (n + off + 4) alen)
    bytes ← copy_from (4 + off) n
    r ← syscall (write fd bytes)
    store_count r

  unfoldable pub fficlose : (c : List ℕ) (clen alen : ℕ) → M (Call World) (Unit {0})
  fficlose c clen alen = do
    check v (leb 1 alen)
    check v (clen == 8)
    fd ← lift (byte8_to_int c 0)
    r ← syscall (close fd)
    if r == 0 then store 0 0 else store 0 1
