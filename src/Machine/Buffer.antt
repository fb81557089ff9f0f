-- ===== src/Machine/Buffer.antt =====
-- The array `a` of an FFI call beside the rest of the state, and access to arrays of bytes. The
-- array `c` of a call is a string of CakeML, which no byte array overlaps, so it is an argument.
pub mod Laws
use cakeml.Prelude.{
  ℕ, zero, suc, ◌+◌, Option, none, some, List, [], ◌∷◌, ltb, leb, if◌then◌else◌, length, get_elem?,
  set, take, drop,
}
use cakeml.Machine.Run.{ok, fault, M, lift}

pub record Call (W : Type 0) : Type 0 where
  pub a : List ℕ
  pub world : W

abbrev pub call : {W : Type 0} → List ℕ → W → Call W
call a w = record { a = a; world = w }

-- The `n` bytes from `off` on.
unfoldable pub slice : List ℕ → ℕ → ℕ → Option (List ℕ)
slice xs off n = if leb (off + n) (length xs) then some (take n (drop off xs)) else none

-- `ys` over the elements from `off` on, as far as the list goes.
abbrev pub overwrite : ℕ → List ℕ → List ℕ → List ℕ
overwrite zero [] xs = xs
overwrite zero (y ∷ ys) [] = []
overwrite zero (y ∷ ys) (x ∷ xs) = y ∷ overwrite zero ys xs
overwrite (suc off) ys [] = []
overwrite (suc off) ys (x ∷ xs) = x ∷ overwrite off ys xs

unfoldable pub splice : List ℕ → ℕ → List ℕ → Option (List ℕ)
splice xs off ys = if leb (off + length ys) (length xs) then some (overwrite off ys xs) else none

-- The bytes before the first 0, as the C library and the kernel read a string. `none` if none is
-- there: the read runs past the end.
unfoldable pub c_string : List ℕ → Option (List ℕ)
c_string [] = none
c_string (zero ∷ xs) = some []
c_string (suc x ∷ xs) = elim (c_string xs) [ none ↦ none | some s ↦ some (suc x ∷ s) ]

module _ {W : Type 0} where
  -- `a[i]` read, and written.
  unfoldable pub load : ℕ → M (Call W) ℕ
  load i s = lift (get_elem? s.a i) s

  unfoldable pub store : ℕ → ℕ → M (Call W) (Unit {0})
  store i v s = if ltb i (length s.a) then ok tt (record s { a = set s.a i v }) else fault

  -- `memcpy` out of and into `a`.
  unfoldable pub copy_from : ℕ → ℕ → M (Call W) (List ℕ)
  copy_from off n s = lift (slice s.a off n) s

  unfoldable pub copy_to : ℕ → List ℕ → M (Call W) (Unit {0})
  copy_to off ys s = elim (splice s.a off ys) [ none ↦ fault | some a ↦ ok tt (record s { a = a }) ]
