-- ===== src/Files/Model.antt =====
-- The file system of the model as an operating system: the assumptions on system calls can be met.
use cakeml.Prelude.{
  ℕ, refl, Bool, true, false, Option, none, some, List, [], ◌∷◌, length, if◌then◌else◌,
}
use cakeml.Machine.Word.{minus_one32, minus_one64}
use cakeml.Files.Fs
use cakeml.Files.Fs.{IoFs, read_mode, write_mode, open_file_truncate, close_fd}
use cakeml.Files.Syscalls.{Os, Flag, Implements, OpenAs, ReadAs, WriteAs, CloseAs}

abbrev pub truncates : List Flag → Bool
truncates [] = false
truncates (Flag.trunc ∷ fs) = true
truncates (f ∷ fs) = truncates fs

abbrev pub opened : IoFs → Option (ℕ × IoFs) → ℕ × IoFs
opened fs none = (minus_one32, fs)
opened fs (some r) = r

abbrev pub was_read : IoFs → Option (List ℕ × IoFs) → (ℕ × List ℕ) × IoFs
was_read fs none = ((minus_one64, []), fs)
was_read fs (some (l, fs')) = ((length l, l), fs')

abbrev pub written : IoFs → Option (ℕ × IoFs) → ℕ × IoFs
written fs none = (minus_one64, fs)
written fs (some r) = r

abbrev pub closed : IoFs → Option IoFs → ℕ × IoFs
closed fs none = (minus_one32, fs)
closed fs (some fs') = (0, fs')

abbrev pub model_os : Os
model_os = record {
  World = IoFs;
  open_file = λ path flags perms fs. opened fs (
      if truncates flags
      then open_file_truncate path fs write_mode
      else Fs.open_file path fs read_mode 0);
  read = λ fd n fs. was_read fs (Fs.read fd fs n);
  write = λ fd bytes fs. written fs (Fs.write fd (length bytes) bytes fs);
  close = λ fd fs. closed fs (close_fd fd fs);
}

abbrev pub self : IoFs → IoFs
self fs = fs

pub opened-OpenAs : (fs : IoFs) (o : Option (ℕ × IoFs)) → OpenAs model_os self fs o (opened fs o)
opened-OpenAs fs none = (refl, refl)
opened-OpenAs fs (some r) = (refl, refl)

pub was_read-ReadAs :
    (fs : IoFs) (o : Option (List ℕ × IoFs)) → ReadAs model_os self fs o (was_read fs o)
was_read-ReadAs fs none = (refl, refl, refl)
was_read-ReadAs fs (some r) = (refl, refl, refl)

pub written-WriteAs :
    (fs : IoFs) (o : Option (ℕ × IoFs)) → WriteAs model_os self fs o (written fs o)
written-WriteAs fs none = (refl, refl)
written-WriteAs fs (some r) = (refl, refl)

pub closed-CloseAs : (fs : IoFs) (o : Option IoFs) → CloseAs model_os self fs o (closed fs o)
closed-CloseAs fs none = (refl, refl)
closed-CloseAs fs (some fs') = (refl, refl)

abbrev pub model-Implements : Implements model_os
model-Implements = record {
  fs_of = self;
  open_in = λ path w. opened-OpenAs w (Fs.open_file path w read_mode 0);
  open_out = λ path w h. opened-OpenAs w (open_file_truncate path w write_mode);
  reads = λ fd n w h r. was_read-ReadAs w (Fs.read fd w n);
  writes = λ fd bytes w h. written-WriteAs w (Fs.write fd (length bytes) bytes w);
  closes = λ fd w h. closed-CloseAs w (close_fd fd w);
}
