-- ===== src/Files/Refines.antt =====
-- The file calls of the C, over an operating system whose files are those of the model, do what
-- fsFFIScript.sml promises. The conditions are those under which the two can agree: the array and
-- the configuration are as long as the assertions of the C demand, where the model returns an error
-- code and the C stops.
mod Strings
pub mod Open
mod Descriptor
pub mod Transfer
pub mod Close
pub mod Session
use cakeml.Prelude.{ℕ, ◌≡◌, some, List, length}
use cakeml.Machine.Run.{Run, ok}
use cakeml.Machine.Buffer.{Call, call}
use cakeml.Files.Fs.{IoFs}
use cakeml.Files.Fs.Calls.{Reply}

-- The call returns, and the model with the same bytes and the same files.
pub record Agrees {W : Type 0} (fs_of : W → IoFs) (run : Run (Call W) (Unit {0})) (reply : Reply)
    : Type 0 where
  pub out : List ℕ
  pub world : W
  pub returns : run ≡ ok tt (call out world)
  pub promised : reply ≡ some (out, fs_of world)
