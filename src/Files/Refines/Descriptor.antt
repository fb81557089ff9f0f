-- ===== src/Files/Refines/Descriptor.antt =====
-- The descriptor in the configuration of a file call: the model takes it as a 64-bit number and the C
-- as an `int`.
use cakeml.Prelude.{ℕ, ◌^◌, ◌<◌, ◌≡◌, ap, ◌∙◌, arith, some, List}
use cakeml.Machine.Word.{IsBytes}
use cakeml.Marshal.{byte8_to_int, w82n}
use cakeml.Marshal.RoundTrip.{byte8_to_int-w82n}

-- The descriptor that the C reads off a configuration.
pub fd_of_conf :
    (c : List ℕ) (fd : ℕ) → IsBytes c → w82n c ≡ some fd → fd < 2 ^ 32 → byte8_to_int c 0 ≡ some fd
fd_of_conf c fd h e small = byte8_to_int-w82n c h fd e ∙ ap some (omega arith)
