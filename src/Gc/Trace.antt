-- ===== src/Gc/Trace.antt =====
-- What a traced call prints.
use cakeml.Prelude.{ℕ, zero, suc, List, [], ◌∷◌, ◌++◌, Bool, if◌then◌else◌}
use cakeml.Machine.Output.{Output, stderr, printf}
use cakeml.Gc.Elapsed.{elapsed}
use cakeml.Gc.{Gc, Timeval, div_ℤ}

abbrev pub replicate : ℕ → Output → List Output
replicate zero o = []
replicate (suc n) o = o ∷ replicate n o

abbrev pub written : List Output → Gc → Gc
written os g = record g { out = g.out ++ os }

abbrev line_of : (has_t : Bool) → Timeval → Timeval → Output
line_of has_t last now =
    if has_t
    then printf stderr " --- %ld milliseconds\n" (div_ℤ (elapsed last now) 1000 ∷ [])
    else printf stderr "\n" []
