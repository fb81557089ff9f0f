-- ===== src/Files/Fs/RoundTrip.antt =====
-- What a write puts into a file, a read gets back.
use cakeml.Prelude.{
  ℕ, zero, suc, ◌+◌, ◌-◌, ◌≤◌, ◌≡◌, ◌≢◌, refl, sym, ap, ◌∙◌, arith, min, true, Bool, Bool-cases,
  Option, none, some, List, [], ◌∷◌, ◌++◌, length, length-append, length-take, take, drop, leb,
  le→leb, ◌==◌, inl, inr,
}
use cakeml.Files.Fs
use cakeml.Files.Fs.{
  IoFs, Fd, Inode, read_mode, write_mode, alookup, afupdkey, drop_numchars, inode_eq, bump_fd,
  fsupdate, require, is_read,
}

module _ {K V : Type 0} (eq : K → K → Bool) where
  alookup-afupdkey :
      (m : List (K × V)) (k : K) (f : V → V) (v : V)
      → alookup eq m k ≡ some v
      → alookup eq (afupdkey eq k f m) k ≡ some (f v)
  unfolding alookup afupdkey
  alookup-afupdkey [] k f v e = absurd (cc)
  alookup-afupdkey ((j, x) ∷ m) k f v e = elim (Bool-cases (eq k j)) [
    | inl same ↦
        rw (same, same)
          (ap (λ (o : Option V). elim o [ none ↦ none | some y ↦ some (f y) ]) (rw same at e))
    | inr other ↦ rw (other, other) (alookup-afupdkey m k f v (rw other at e))
  ]

alookup-afupdkey_other :
    {V : Type 0} (m : List (ℕ × V)) (i k : ℕ) (f : V → V)
    → i ≢ k
    → alookup ◌==◌ (afupdkey ◌==◌ k f m) i ≡ alookup ◌==◌ m i
unfolding alookup afupdkey
alookup-afupdkey_other [] i k f ne = refl
alookup-afupdkey_other ((j, x) ∷ m) i k f ne = ground (arith, alookup-afupdkey_other m i k f ne)

drop_at : (p : ℕ) (xs ys : List ℕ) → p ≤ length xs → drop p (take p xs ++ ys) ≡ ys
drop_at zero xs ys h = refl
drop_at (suc p) [] ys h = absurd (omega arith)
drop_at (suc p) (x ∷ xs) ys h = drop_at p xs ys (omega arith)

take_front : (xs ys : List ℕ) → take (length xs) (xs ++ ys) ≡ xs
take_front [] ys = refl
take_front (x ∷ xs) ys = ap (λ t. x ∷ t) (take_front xs ys)

-- Two descriptors at the same place of one file, for writing and for reading, with the numbers that
-- the next two transfers go by.
pub record SamePlace (fs : IoFs) (wfd rfd : ℕ) (content : List ℕ) (p j i : ℕ) : Type 0 where
  pub inode : Inode
  pub differ : rfd ≢ wfd
  pub writer :
      alookup ◌==◌ fs.infds wfd ≡ some (record { inode = inode; mode = write_mode; pos = p })
  pub reader :
      alookup ◌==◌ fs.infds rfd ≡ some (record { inode = inode; mode = read_mode; pos = p })
  pub holds : alookup inode_eq fs.inode_tbl inode ≡ some content
  pub inside : p ≤ length content
  pub first : fs.numchars 0 ≡ some j
  pub second : fs.numchars 1 ≡ some i

-- The write stores some of the bytes from the first on; a read of as many from the same place gets
-- them, unless it is cut short.
pub write_read :
    (fs : IoFs) (wfd rfd p j i : ℕ) (content bytes : List ℕ)
    → SamePlace fs wfd rfd content p j i
    → let k = min (length bytes) j in
      k ≤ suc i
      → (fs1 : IoFs) × (fs2 : IoFs) × (Fs.write wfd (length bytes) bytes fs ≡ some (k, fs1))
        × (Fs.read rfd fs1 k ≡ some (take k bytes, fs2))
        × (alookup ◌==◌ fs1.infds rfd ≡ alookup ◌==◌ fs.infds rfd)
unfolding Fs.write Fs.read fsupdate bump_fd
write_read fs wfd rfd p j i content bytes place room =
    let k = min (length bytes) j in
    let content' = take p content ++ (take k bytes ++ drop (p + k) content) in
    let fs1 = record fs {
      inode_tbl = afupdkey inode_eq place.inode (λ _. content') fs.inode_tbl;
      numchars = drop_numchars 1 fs.numchars;
      infds = afupdkey ◌==◌ wfd (λ (d : Fd). record d { pos = p + k }) fs.infds;
    } in
    let updated : fsupdate fs wfd 1 (p + k) content' ≡ fs1 = rw (fsupdate, place.writer) in
    let all : leb (length bytes) (length bytes) ≡ true =
      le→leb (length bytes) (length bytes) (omega arith) in
    let size : length (take k bytes) ≡ k = omega (arith, length-take k bytes) in
    let found =
      alookup-afupdkey_other fs.infds rfd wfd (λ (d : Fd). record d { pos = p + k }) place.differ in
    let now =
      alookup-afupdkey inode_eq fs.inode_tbl place.inode (λ _. content') content place.holds in
    let tail = take k bytes ++ drop (p + k) content in
    let rest : drop p content' ≡ tail = drop_at p content tail place.inside in
    let long : p + k ≤ length content' = omega (
      arith,
      length-append (take p content) tail,
      length-take p content,
      place.inside,
      length-append (take k bytes) (drop (p + k) content),
      size,
    ) in
    let amount : min k (min (length content' - p) (suc i)) ≡ k = omega arith in
    let same_front : take k tail ≡ take k bytes =
      ap (λ (n : ℕ). take n tail) (sym size) ∙ take_front (take k bytes) (drop (p + k) content) in
    (
      fs1,
      bump_fd rfd fs1 k,
      rw (place.writer, place.holds, all, place.first) (ap (λ (x : IoFs). some (k, x)) updated),
      rw (found, place.reader, now, place.second, amount, rest, same_front),
      found,
    )
