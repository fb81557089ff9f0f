-- ===== src/Tests.antt =====
-- Concrete inputs at which the theorems apply.
pub mod OnFiles
pub mod OnBytes
pub mod OnBounds
pub mod OnSession
pub mod OnArguments
pub mod OnStart
pub mod OnSignals
pub mod OnGc
pub mod OnDoubles
pub mod OnCopies
