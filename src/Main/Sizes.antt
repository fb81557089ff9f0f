-- ===== src/Main/Sizes.antt =====
-- The sizes that `main` computes, in the megabytes that the environment asks for.
use cakeml.Prelude.{ℕ, ◌*◌, ◌%◌, ◌^◌, ◌<◌, ◌≡◌, refl, arith, Option, none, some, List}
use cakeml.Machine.Strtoul.{strtoul}
use cakeml.Main.{size_from}

-- What a variable asks for, 1024 if it is not set.
abbrev pub megabytes : Option (List ℕ) → ℕ
megabytes none = 1024
megabytes (some env) = strtoul env

-- The multiplication by 2 ^ 20 wraps: only the request modulo 2 ^ 44 counts.
pub size_from_wraps : (env : Option (List ℕ)) → size_from env ≡ megabytes env % 2 ^ 44 * 2 ^ 20
unfolding size_from
size_from_wraps none = refl
size_from_wraps (some env) = omega arith

pub size_from_exact :
    (env : Option (List ℕ)) → megabytes env < 2 ^ 44 → size_from env ≡ megabytes env * 2 ^ 20
size_from_exact env h = omega (arith, size_from_wraps env)
