-- ===== src/Tests.antt =====
-- Concrete crates, a small corpus and the theorems at concrete inputs.
pub mod Parsing
pub mod Samples
pub mod Sequences
pub mod Queries
pub mod Plans
pub mod Sessions
pub mod Commands
pub mod Lexicons
pub mod Indexes
