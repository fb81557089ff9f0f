-- ===== src/Machine/Output.antt =====
-- What the C writes to its standard streams, as a list of calls in order: a byte by `putc`, a format
-- with its arguments by `printf` and `fprintf`, and `perror`.
use cakeml.Prelude.{ℕ, List, [], ◌∷◌, ◌++◌, String}
use cakeml.Prelude.Int.{ℤ}

pub data Stream : Type 0 where
  stdout stderr : Stream

pub data Output : Type 0 where
  putc : Stream → ℕ → Output
  printf : Stream → String → List ℤ → Output
  perror : String → Output

-- Output `o` behind what was written before.
abbrev pub then_write : List Output → Output → List Output
then_write out o = out ++ o ∷ []
