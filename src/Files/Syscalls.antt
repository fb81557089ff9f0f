-- ===== src/Files/Syscalls.antt =====
-- The system calls that the file calls rest on, as parameters, and what POSIX documents of them in
-- the terms of the file system of fsFFIScript.sml. Integers are bit patterns: an `int` below 2 ^ 32,
-- an `ssize_t` below 2 ^ 64.
use cakeml.Prelude.{Bool, true, ◌==◌, ℕ, ◌^◌, ◌<◌, ◌≡◌, Option, none, some, List, [], ◌∷◌, length}
use cakeml.Machine.Word.{minus_one32, minus_one64}
use cakeml.Files.Fs
use cakeml.Files.Fs.{
  IoFs, Fd, alookup, str_eq, is_read, is_file, read_mode, write_mode, open_file_truncate, close_fd,
}

pub data Flag : Type 0 where
  rdonly rdwr creat trunc : Flag

pub data Perm : Type 0 where
  irusr iwusr irgrp iroth : Perm

-- `read` answers with the bytes that it puts into the buffer.
pub record Os : Type 1 where
  pub World : Type 0
  pub open_file : List ℕ → List Flag → List Perm → World → ℕ × World
  pub read : (fd count : ℕ) → World → (ℕ × List ℕ) × World
  pub write : (fd : ℕ) → List ℕ → World → ℕ × World
  pub close : (fd : ℕ) → World → ℕ × World

module _ (os : Os) (fs_of : os.World → IoFs) where
  open os use {World, open_file, read, write, close}

  -- A call that fails answers -1 and leaves the files alone; one that succeeds answers and does what
  -- the file system says.
  abbrev pub OpenAs : World → Option (ℕ × IoFs) → ℕ × World → Type 0
  OpenAs w none (r, w') = (r ≡ minus_one32) × (fs_of w' ≡ fs_of w)
  OpenAs w (some (fd, fs)) (r, w') = (r ≡ fd) × (fs_of w' ≡ fs)

  abbrev pub ReadAs : World → Option (List ℕ × IoFs) → (ℕ × List ℕ) × World → Type 0
  ReadAs w none ((r, got), w') = (r ≡ minus_one64) × (got ≡ []) × (fs_of w' ≡ fs_of w)
  ReadAs w (some (l, fs)) ((r, got), w') = (r ≡ length l) × (got ≡ l) × (fs_of w' ≡ fs)

  abbrev pub WriteAs : World → Option (ℕ × IoFs) → ℕ × World → Type 0
  WriteAs w none (r, w') = (r ≡ minus_one64) × (fs_of w' ≡ fs_of w)
  WriteAs w (some (n, fs)) (r, w') = (r ≡ n) × (fs_of w' ≡ fs)

  abbrev pub CloseAs : World → Option IoFs → ℕ × World → Type 0
  CloseAs w none (r, w') = (r ≡ minus_one32) × (fs_of w' ≡ fs_of w)
  CloseAs w (some fs) (r, w') = (r ≡ 0) × (fs_of w' ≡ fs)

-- Whether the descriptor, if it is open, passes a test.
abbrev pub Allows : (Fd → Bool) → IoFs → ℕ → Type 0
Allows test fs fd = (d : Fd) → alookup ◌==◌ fs.infds fd ≡ some d → test d ≡ true

-- Whether the file system has a file of that name.
abbrev pub HasFile : IoFs → List ℕ → Type 0
HasFile fs path = (inode : List ℕ) × (alookup str_eq fs.files path ≡ some inode)

-- An operating system whose files are those of the model, as `fs_of` reads them off its state.
-- The two can differ where the model is narrower than POSIX: O_CREAT makes a file that is missing,
-- O_RDWR lets a descriptor for writing be read, and a standard stream can be closed.
pub record Implements (os : Os) : Type 1 where
  pub fs_of : os.World → IoFs
  pub open_in :
      (path : List ℕ) (w : os.World)
      → OpenAs os fs_of w
          (Fs.open_file path (fs_of w) read_mode 0)
          (os.open_file path (Flag.rdonly ∷ []) [] w)
  pub open_out :
      (path : List ℕ) (w : os.World)
      → HasFile (fs_of w) path
      → OpenAs os fs_of w (open_file_truncate path (fs_of w) write_mode) (
          os.open_file path
            (Flag.rdwr ∷ Flag.creat ∷ Flag.trunc ∷ [])
            (Perm.irusr ∷ Perm.iwusr ∷ Perm.irgrp ∷ Perm.iroth ∷ [])
            w)
  pub reads :
      (fd n : ℕ) (w : os.World)
      → n < 2 ^ 16
      → Allows (λ d. is_read d.mode) (fs_of w) fd
      → ReadAs os fs_of w (Fs.read fd (fs_of w) n) (os.read fd n w)
  pub writes :
      (fd : ℕ) (bytes : List ℕ) (w : os.World)
      → length bytes < 2 ^ 16
      → WriteAs os fs_of w (Fs.write fd (length bytes) bytes (fs_of w)) (os.write fd bytes w)
  pub closes :
      (fd : ℕ) (w : os.World)
      → Allows (λ d. is_file d.inode) (fs_of w) fd
      → CloseAs os fs_of w (close_fd fd (fs_of w)) (os.close fd w)
