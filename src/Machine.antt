-- ===== src/Machine.antt =====
-- The C that the sources use: words, arrays of bytes, and the ways in which a call ends.
pub mod Word
pub mod Run
pub mod Read
pub mod Buffer
pub mod Output
pub mod Strtoul
