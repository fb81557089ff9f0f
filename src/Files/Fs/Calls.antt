-- ===== src/Files/Fs/Calls.antt =====
-- The file calls of fsFFIScript.sml: what each returns in the array of the call, and the file
-- system it leaves. `none` means that the model promises nothing.
use cakeml.Prelude.{
  ℕ, suc, Option, none, some, List, [], ◌∷◌, ◌++◌, ◌==◌, ltb, leb, if◌then◌else◌, length, set, take,
  drop,
}
use cakeml.Machine.Read.{◌>>=◌, ◌>>◌}
use cakeml.Marshal.{n2w2, n2w8, w22n, w82n}
use cakeml.Files.Fs.{
  IoFs, read_mode, write_mode, require, open_file, open_file_truncate, read, write, close_fd,
}

abbrev pub Reply : Type 0
Reply = Option (List ℕ × IoFs)

-- `++` of the option monad: the second where the first fails.
infixr 4 ◌orelse◌
abbrev pub ◌orelse◌ : Reply → Reply → Reply
none orelse r = r
some x orelse r = some x

-- The position of the first `x`, or the length.
unfoldable pub findi : ℕ → List ℕ → ℕ
findi x [] = 0
findi x (y ∷ ys) = if x == y then 0 else suc (findi x ys)

unfoldable pub get_null_term_str : List ℕ → Option (List ℕ)
unfolding findi
get_null_term_str bytes =
    let sz = findi 0 bytes in if sz == length bytes then none else some (take sz bytes)

unfoldable pub ffi_open_in : (conf bytes : List ℕ) → IoFs → Reply
ffi_open_in conf bytes fs =
    (do
      require (leb 9 (length bytes))
      fname ← get_null_term_str conf
      (fd, fs') ← open_file fname fs read_mode 0
      some (0 ∷ n2w8 fd ++ drop 9 bytes, fs'))
    orelse (do require (ltb 0 (length bytes)); some (set bytes 0 1, fs))

unfoldable pub ffi_open_out : (conf bytes : List ℕ) → IoFs → Reply
ffi_open_out conf bytes fs =
    (do
      require (leb 9 (length bytes))
      fname ← get_null_term_str conf
      (fd, fs') ← open_file_truncate fname fs write_mode
      require (leb fd 255)
      some (0 ∷ n2w8 fd ++ drop 9 bytes, fs'))
    orelse (do require (ltb 0 (length bytes)); some (set bytes 0 1, fs))

unfoldable pub ffi_read : (conf bytes : List ℕ) → IoFs → Reply
ffi_read conf (n1 ∷ n0 ∷ pad1 ∷ pad2 ∷ tll) fs =
    (do
      require (length conf == 8)
      n ← w22n (n1 ∷ n0 ∷ [])
      require (leb n (length tll))
      fd ← w82n conf
      (l, fs') ← read fd fs n
      some (0 ∷ n2w2 (length l) ++ (pad2 ∷ l ++ drop (length l) tll), fs'))
    orelse some (set (n1 ∷ n0 ∷ pad1 ∷ pad2 ∷ tll) 0 1, fs)
ffi_read conf _ fs = none

unfoldable pub ffi_write : (conf bytes : List ℕ) → IoFs → Reply
ffi_write conf (n1 ∷ n0 ∷ off1 ∷ off0 ∷ tll) fs =
    (do
      require (length conf == 8)
      off ← w22n (off1 ∷ off0 ∷ [])
      require (leb off (length tll))
      fd ← w82n conf
      n ← w22n (n1 ∷ n0 ∷ [])
      (nw, fs') ← write fd n (drop off tll) fs
      some (0 ∷ n2w2 nw ++ (off0 ∷ tll), fs'))
    orelse some (set (n1 ∷ n0 ∷ off1 ∷ off0 ∷ tll) 0 1, fs)
ffi_write conf _ fs = none

unfoldable pub ffi_close : (conf bytes : List ℕ) → IoFs → Reply
ffi_close conf bytes fs = do
  require (leb 1 (length bytes))
  require (length conf == 8)
  (do fd ← w82n conf; fs' ← close_fd fd fs; some (set bytes 0 0, fs'))
      orelse some (set bytes 0 1, fs)
