-- ===== src/Files/Fs/Laws.antt =====
-- What the operations of the file system keep.
use cakeml.Prelude.{
  ℕ, zero, suc, ◌≤◌, ◌≡◌, refl, ap, arith, true, some, List, [], ◌∷◌, leb, length, take, min,
  length-take, le→leb,
}
use cakeml.Files.Fs.{Mode, IoFs, open_file, open_file_truncate, read, write}

-- A descriptor that is handed out is within the limit.
pub open_file-le-max_fd :
    (name : List ℕ) (fs : IoFs) (md : Mode) (pos fd : ℕ) (fs' : IoFs)
    → open_file name fs md pos ≡ some (fd, fs')
    → fd ≤ fs.max_fd
unfolding open_file
open_file-le-max_fd name fs md pos fd fs' e = ground arith

pub open_file_truncate-le-max_fd :
    (name : List ℕ) (fs : IoFs) (md : Mode) (fd : ℕ) (fs' : IoFs)
    → open_file_truncate name fs md ≡ some (fd, fs')
    → fd ≤ fs.max_fd
unfolding open_file_truncate
open_file_truncate-le-max_fd name fs md fd fs' e = ground arith

length-take-min : (n m : ℕ) (xs : List ℕ) → length (take (min n m) xs) ≤ n
length-take-min n m xs = omega (arith, length-take (min n m) xs)

take-take : (k n : ℕ) (xs : List ℕ) → k ≤ n → take k (take n xs) ≡ take k xs
take-take zero n xs h = refl
take-take (suc k) zero xs h = absurd (omega arith)
take-take (suc k) (suc n) [] h = refl
take-take (suc k) (suc n) (x ∷ xs) h = ap (λ t. x ∷ t) (take-take k n xs (omega arith))

take-min-take : (n : ℕ) (xs : List ℕ) (m : ℕ) → take (min n m) (take n xs) ≡ take (min n m) xs
take-min-take n xs m = take-take (min n m) n xs (omega arith)

-- A read gives no more than was asked for.
pub read-length :
    (fd : ℕ) (fs : IoFs) (n : ℕ) (l : List ℕ) (fs' : IoFs)
    → read fd fs n ≡ some (l, fs')
    → length l ≤ n
unfolding read
read-length fd fs n l fs' e = grind (arith, length-take-min)

-- A write of the first `n` of some characters takes no other into account.
pub write-take :
    (fd n : ℕ) (chars : List ℕ) (fs : IoFs)
    → n ≤ length chars
    → write fd n chars fs ≡ write fd n (take n chars) fs
unfolding write
write-take fd n chars fs h =
    let long : leb n (length chars) ≡ true = le→leb n (length chars) h in
    let cut : leb n (length (take n chars)) ≡ true =
      le→leb n (length (take n chars)) (omega (arith, length-take n chars)) in
    simp (long, cut, take-min-take n chars)

pub write-le :
    (fd n : ℕ) (chars : List ℕ) (fs : IoFs) (k : ℕ) (fs' : IoFs)
    → write fd n chars fs ≡ some (k, fs')
    → k ≤ n
unfolding write
write-le fd n chars fs k fs' e = ground arith
