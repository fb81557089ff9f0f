-- ===== src/Files/Fs.antt =====
-- The file system of basis/fsFFIScript.sml: what the file calls of the basis library promise.
-- Characters are bytes, a string is the list of them, and the lazy list of numbers that decides how
-- much a read or a write transfers is a function from its positions, `none` from its end on.
pub mod NextFd
pub mod RoundTrip
pub mod Laws
pub mod Calls
use cakeml.Prelude.{
  ℕ, zero, suc, ◌+◌, ◌-◌, ◌≤◌, min, Bool, true, false, not, ◌&&◌, Option, none, some, List, [], ◌∷◌,
  ◌++◌, map, ◌==◌, leb, if◌then◌else◌, length, take, drop,
}
use cakeml.Machine.Read.{◌>>=◌, ◌>>◌}

pub data Inode : Type 0 where
  ustream : List ℕ → Inode
  file : List ℕ → Inode

pub data Mode : Type 0 where
  read_mode write_mode : Mode

-- An open file: what it is, how it was opened, and the position in it.
pub record Fd : Type 0 where
  pub inode : Inode
  pub mode : Mode
  pub pos : ℕ

pub record IoFs : Type 0 where
  pub inode_tbl : List (Inode × List ℕ)
  pub files : List (List ℕ × List ℕ)
  pub infds : List (ℕ × Fd)
  pub numchars : ℕ → Option ℕ
  pub max_fd : ℕ

unfoldable pub str_eq : List ℕ → List ℕ → Bool
str_eq [] [] = true
str_eq (x ∷ s) (y ∷ t) = (x == y) && str_eq s t
str_eq _ _ = false

unfoldable pub inode_eq : Inode → Inode → Bool
unfolding str_eq
inode_eq (ustream s) (ustream t) = str_eq s t
inode_eq (file s) (file t) = str_eq s t
inode_eq _ _ = false

abbrev pub is_read : Mode → Bool
is_read read_mode = true
is_read write_mode = false

module _ {K V : Type 0} (eq : K → K → Bool) where
  unfoldable pub alookup : List (K × V) → K → Option V
  alookup [] k = none
  alookup ((j, v) ∷ m) k = if eq k j then some v else alookup m k

  unfoldable pub afupdkey : K → (V → V) → List (K × V) → List (K × V)
  afupdkey k f [] = []
  afupdkey k f ((j, v) ∷ m) = if eq k j then (j, f v) ∷ m else (j, v) ∷ afupdkey k f m

  unfoldable pub adelkey : K → List (K × V) → List (K × V)
  adelkey k [] = []
  adelkey k ((j, v) ∷ m) = if eq k j then adelkey k m else (j, v) ∷ adelkey k m

abbrev pub require : Bool → Option (Unit {0})
require true = some tt
require false = none

-- The smallest number that is not in the list. Each round takes a number out of the list, so there
-- are at most as many as its length.
unfoldable pub has : ℕ → List ℕ → Bool
has n [] = false
has n (m ∷ ms) = if n == m then true else has n ms

unfoldable pub without : ℕ → List ℕ → List ℕ
without n [] = []
without n (m ∷ ms) = if n == m then without n ms else m ∷ without n ms

unfoldable pub least_unused : ℕ → ℕ → List ℕ → ℕ
unfolding has without
least_unused zero n used = n
least_unused (suc rounds) n used =
    let next = least_unused rounds (n + 1) (without n used) in if has n used then next else n

abbrev pub fd_number : ℕ × Fd → ℕ
fd_number (n, d) = n

unfoldable pub next_fd : IoFs → ℕ
unfolding least_unused
next_fd fs = least_unused (length fs.infds) 0 (map fd_number fs.infds)

unfoldable pub open_file : List ℕ → IoFs → Mode → ℕ → Option (ℕ × IoFs)
unfolding alookup str_eq inode_eq
open_file name fs md pos = do
  require (leb (next_fd fs) fs.max_fd)
  iname ← alookup str_eq fs.files name
  _ ← alookup inode_eq fs.inode_tbl (file iname)
  let fd : Fd = record { inode = file iname; mode = md; pos = pos }
  some (next_fd fs, record fs { infds = (next_fd fs, fd) ∷ fs.infds })

unfoldable pub open_file_truncate : List ℕ → IoFs → Mode → Option (ℕ × IoFs)
unfolding alookup afupdkey str_eq inode_eq
open_file_truncate name fs md = do
  require (leb (next_fd fs) fs.max_fd)
  iname ← alookup str_eq fs.files name
  _ ← alookup inode_eq fs.inode_tbl (file iname)
  let fd : Fd = record { inode = file iname; mode = md; pos = 0 }
  some (
    next_fd fs,
    record fs {
      infds = (next_fd fs, fd) ∷ fs.infds;
      inode_tbl = afupdkey inode_eq (file iname) (λ _. []) fs.inode_tbl;
    },
  )

-- The lazy list without its first `k` numbers.
abbrev pub drop_numchars : ℕ → (ℕ → Option ℕ) → ℕ → Option ℕ
drop_numchars k s i = s (i + k)

-- The position `n` characters on, and one number of the lazy list used up.

unfoldable pub bump_fd : ℕ → IoFs → ℕ → IoFs
unfolding afupdkey
bump_fd fd fs n = record fs {
  infds = afupdkey ◌==◌ fd (λ (d : Fd). record d { pos = n + d.pos }) fs.infds;
  numchars = drop_numchars 1 fs.numchars;
}

unfoldable pub read : ℕ → IoFs → ℕ → Option (List ℕ × IoFs)
unfolding alookup inode_eq bump_fd
read fd fs n = do
  d ← alookup ◌==◌ fs.infds fd
  require (is_read d.mode)
  content ← alookup inode_eq fs.inode_tbl d.inode
  strm ← fs.numchars 0
  let k = min n (min (length content - d.pos) (suc strm))
  some (take k (drop d.pos content), bump_fd fd fs k)

unfoldable pub fsupdate : IoFs → (fd k pos : ℕ) → List ℕ → IoFs
unfolding alookup afupdkey inode_eq
fsupdate fs fd k pos content = elim (alookup ◌==◌ fs.infds fd) [
  | none ↦ fs
  | some d ↦ record fs {
    inode_tbl = afupdkey inode_eq d.inode (λ _. content) fs.inode_tbl;
    numchars = drop_numchars k fs.numchars;
    infds = afupdkey ◌==◌ fd (λ (d : Fd). record d { pos = pos }) fs.infds;
  }
]

unfoldable pub write : ℕ → ℕ → List ℕ → IoFs → Option (ℕ × IoFs)
unfolding alookup inode_eq fsupdate
write fd n chars fs = do
  d ← alookup ◌==◌ fs.infds fd
  require (not (is_read d.mode))
  content ← alookup inode_eq fs.inode_tbl d.inode
  require (leb n (length chars))
  strm ← fs.numchars 0
  let k = min n strm
  some (
    k,
    fsupdate fs fd 1 (d.pos + k) (take d.pos content ++ (take k chars ++ drop (d.pos + k) content)),
  )

abbrev pub is_file : Inode → Bool
is_file (ustream s) = false
is_file (file s) = true

unfoldable pub close_fd : ℕ → IoFs → Option IoFs
unfolding alookup adelkey
close_fd fd fs = do
  d ← alookup ◌==◌ fs.infds fd
  require (is_file d.inode)
  some (record fs { infds = adelkey ◌==◌ fd fs.infds })
