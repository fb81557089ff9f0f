-- ===== src/Files/Refines/Strings.antt =====
-- The C library and the model find the same string in a configuration.
use cakeml.Prelude.{ℕ, zero, suc, ◌≡◌, refl, arith, List, [], ◌∷◌}
use cakeml.Machine.Buffer.{c_string}
use cakeml.Files.Fs.Calls.{findi, get_null_term_str}

pub c_string-get_null_term_str : (c : List ℕ) → c_string c ≡ get_null_term_str c
unfolding c_string findi get_null_term_str
c_string-get_null_term_str [] = refl
c_string-get_null_term_str (zero ∷ c) = ground arith
c_string-get_null_term_str (suc x ∷ c) = ground (arith, c_string-get_null_term_str c)
