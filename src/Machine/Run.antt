-- ===== src/Machine/Run.antt =====
-- How a piece of C ends, as a monad over a state. `exited` and `aborted` stop the process with the
-- state they leave behind; `fault` is undefined behaviour, here an access outside an object or an
-- overflow of a signed counter.
use cakeml.Prelude.{Bool, true, false, Option, none, some, ℕ}

pub data Run (S A : Type 0) : Type 0 where
  ok : A → S → Run S A
  exited : ℕ → S → Run S A
  aborted : S → Run S A
  fault : Run S A

abbrev pub M : Type 0 → Type 0 → Type 0
M S A = S → Run S A

module _ {S A B : Type 0} where
  abbrev pub and_then : Run S A → (A → M S B) → Run S B
  and_then (ok a s) k = k a s
  and_then (exited n s) k = exited n s
  and_then (aborted s) k = aborted s
  and_then fault k = fault

  infixl 5 ◌>>=◌ ◌>>◌
  abbrev pub ◌>>=◌ : M S A → (A → M S B) → M S B
  m >>= k = λ s. and_then (m s) k

  abbrev pub ◌>>◌ : M S A → M S B → M S B
  m >> k = λ s. and_then (m s) (λ _. k)

module _ {S : Type 0} where
  abbrev pub pure : {A : Type 0} → A → M S A
  pure a = λ s. ok a s

  abbrev pub get : M S S
  get = λ s. ok s s

  abbrev pub modify : (S → S) → M S (Unit {0})
  modify f = λ s. ok tt (f s)

  -- A read that may fail.
  abbrev pub lift : {A : Type 0} → Option A → M S A
  lift none = λ s. fault
  lift (some a) = λ s. ok a s

  -- `exit(code)`.
  abbrev pub exit : {A : Type 0} → ℕ → M S A
  exit code = λ s. exited code s

  -- `assert(test)`.
  abbrev pub assert : Bool → M S (Unit {0})
  assert true = λ s. ok tt s
  assert false = λ s. aborted s
