-- ===== src/Machine/Buffer/Laws.antt =====
-- Laws of `overwrite`, `slice` and the accesses to `a`.
use cakeml.Prelude.{
  ℕ, zero, suc, ◌+◌, ◌≤◌, ◌<◌, ◌≡◌, refl, ap, ◌∙◌, ◌⊎◌, arith, List, [], ◌∷◌, ◌++◌, length,
  get_elem?, set, take, drop, All, lt→ltb, le→ltb, lt→leb, le→leb,
}
use cakeml.Machine.Run.{ok, fault}
use cakeml.Machine.Buffer.{call, overwrite, slice, splice, store, copy_from, copy_to}
use native.Mathlib.Nat.{add-zero}
use Prim.Native.Nat.add

pub length-overwrite : (off : ℕ) (ys xs : List ℕ) → length (overwrite off ys xs) ≡ length xs
length-overwrite zero [] xs = refl
length-overwrite zero (y ∷ ys) [] = refl
length-overwrite zero (y ∷ ys) (x ∷ xs) = ap suc (length-overwrite zero ys xs)
length-overwrite (suc off) ys [] = refl
length-overwrite (suc off) ys (x ∷ xs) = ap suc (length-overwrite off ys xs)

pub overwrite-All :
    (P : ℕ → Type 0) (off : ℕ) (ys xs : List ℕ) → All P ys → All P xs → All P (overwrite off ys xs)
overwrite-All P zero [] xs p q = q
overwrite-All P zero (y ∷ ys) [] p q = tt
overwrite-All P zero (y ∷ ys) (x ∷ xs) (p, ps) (q, qs) = (p, overwrite-All P zero ys xs ps qs)
overwrite-All P (suc off) ys [] p q = tt
overwrite-All P (suc off) ys (x ∷ xs) p (q, qs) = (q, overwrite-All P off ys xs p qs)

set-overwrite : (xs : List ℕ) (i v : ℕ) → set xs i v ≡ overwrite i (v ∷ []) xs
set-overwrite [] zero v = refl
set-overwrite [] (suc i) v = refl
set-overwrite (x ∷ xs) zero v = refl
set-overwrite (x ∷ xs) (suc i) v = ap (λ t. x ∷ t) (set-overwrite xs i v)

pub overwrite-nil : (off : ℕ) (xs : List ℕ) → overwrite off [] xs ≡ xs
overwrite-nil zero xs = refl
overwrite-nil (suc off) [] = refl
overwrite-nil (suc off) (x ∷ xs) = ap (λ t. x ∷ t) (overwrite-nil off xs)

overwrite-empty : (off : ℕ) (ys : List ℕ) → overwrite off ys [] ≡ []
overwrite-empty zero [] = refl
overwrite-empty zero (y ∷ ys) = refl
overwrite-empty (suc off) ys = refl

-- Two writes next to each other are one.
pub overwrite-append :
    (off : ℕ) (ys zs xs : List ℕ)
    → overwrite (off + length ys) zs (overwrite off ys xs) ≡ overwrite off (ys ++ zs) xs
overwrite-append zero [] zs xs = rw (add.zero 0) refl
overwrite-append zero (y ∷ ys) zs [] = overwrite-empty _ zs
overwrite-append zero (y ∷ ys) zs (x ∷ xs) =
    rw (add.zero (suc (length ys)))
      (ap (λ t. y ∷ t) (rw (add.zero (length ys)) at (overwrite-append zero ys zs xs)))
overwrite-append (suc off) ys zs [] = overwrite-empty _ zs
overwrite-append (suc off) ys zs (x ∷ xs) =
    rw (add.suc off (length ys)) (ap (λ t. x ∷ t) (overwrite-append off ys zs xs))

-- A write from the start of the list.
pub overwrite_front :
    (ys xs : List ℕ) → length ys ≤ length xs → overwrite 0 ys xs ≡ ys ++ drop (length ys) xs
overwrite_front [] xs h = refl
overwrite_front (y ∷ ys) [] h = absurd (omega arith)
overwrite_front (y ∷ ys) (x ∷ xs) h = ap (λ t. y ∷ t) (overwrite_front ys xs (omega arith))

-- A write of nothing but what is inside shows at each index.
pub get_elem?-overwrite :
    (off k : ℕ) (ys xs : List ℕ)
    → off + length ys ≤ length xs
    → k < length ys
    → get_elem? (overwrite off ys xs) (off + k) ≡ get_elem? ys k
get_elem?-overwrite zero k [] xs h lt = absurd (omega arith)
get_elem?-overwrite zero k (y ∷ ys) [] h lt = absurd (omega arith)
get_elem?-overwrite zero zero (y ∷ ys) (x ∷ xs) h lt = refl
get_elem?-overwrite zero (suc k) (y ∷ ys) (x ∷ xs) h lt =
    rw (add.zero (suc k))
      (rw (add.zero k) at (get_elem?-overwrite zero k ys xs (omega arith) (omega arith)))
get_elem?-overwrite (suc off) k ys [] h lt = absurd (omega arith)
get_elem?-overwrite (suc off) k ys (x ∷ xs) h lt =
    rw (add.suc off k) (get_elem?-overwrite off k ys xs (omega arith) lt)

pub get_elem?_start :
    (off : ℕ) (ys xs : List ℕ)
    → off + length ys ≤ length xs
    → 0 < length ys
    → get_elem? (overwrite off ys xs) off ≡ get_elem? ys 0
get_elem?_start off ys xs h pos = rw (add-zero off) at (get_elem?-overwrite off 0 ys xs h pos)

-- A write shows nowhere else.
pub get_elem?-overwrite_outside :
    (off j : ℕ) (ys xs : List ℕ)
    → (j < off) ⊎ (off + length ys ≤ j)
    → get_elem? (overwrite off ys xs) j ≡ get_elem? xs j
get_elem?-overwrite_outside zero j [] xs h = refl
get_elem?-overwrite_outside zero j (y ∷ ys) [] h = refl
get_elem?-overwrite_outside zero zero (y ∷ ys) (x ∷ xs) h = absurd (omega arith)
get_elem?-overwrite_outside zero (suc j) (y ∷ ys) (x ∷ xs) h =
    get_elem?-overwrite_outside zero j ys xs (omega arith)
get_elem?-overwrite_outside (suc off) j ys [] h = refl
get_elem?-overwrite_outside (suc off) zero ys (x ∷ xs) h = refl
get_elem?-overwrite_outside (suc off) (suc j) ys (x ∷ xs) h =
    get_elem?-overwrite_outside off j ys xs (omega arith)

module _ {W : Type 0} where
  pub store_lem :
      (i v : ℕ) (a : List ℕ) (w : W)
      → i < length a
      → store i v (call a w) ≡ ok tt (call (overwrite i (v ∷ []) a) w)
  unfolding store
  store_lem i v a w h = rw (lt→ltb i (length a) h, set-overwrite a i v)

  pub store_outside : (i v : ℕ) (a : List ℕ) (w : W) → length a ≤ i → store i v (call a w) ≡ fault
  unfolding store
  store_outside i v a w h = rw (le→ltb i (length a) h, store)

  -- A store behind what was written last makes it longer.
  pub store_next :
      (b : ℕ) (ys : List ℕ) (v : ℕ) (a : List ℕ) (w : W)
      → b + length ys < length a
      → store (b + length ys) v (call (overwrite b ys a) w)
        ≡ ok tt (call (overwrite b (ys ++ v ∷ []) a) w)
  store_next b ys v a w h =
      store_lem (b + length ys) v (overwrite b ys a) w (rw length-overwrite h)
      ∙ ap (λ t. ok tt (call t w)) (overwrite-append b ys (v ∷ []) a)

  pub copy_to_lem :
      (off : ℕ) (ys a : List ℕ) (w : W)
      → off + length ys ≤ length a
      → copy_to off ys (call a w) ≡ ok tt (call (overwrite off ys a) w)
  unfolding copy_to splice
  copy_to_lem off ys a w h = rw (le→leb (off + length ys) (length a) h, copy_to)

  pub copy_to_outside :
      (off : ℕ) (ys a : List ℕ) (w : W)
      → length a < off + length ys
      → copy_to off ys (call a w) ≡ fault
  unfolding copy_to splice
  copy_to_outside off ys a w h = rw (lt→leb (off + length ys) (length a) h, copy_to)

  pub copy_from_lem :
      (off n : ℕ) (a : List ℕ) (w : W)
      → off + n ≤ length a
      → copy_from off n (call a w) ≡ ok (take n (drop off a)) (call a w)
  unfolding copy_from slice
  copy_from_lem off n a w h = rw (le→leb (off + n) (length a) h, copy_from)
