-- ===== src/Tests.antt =====
-- Concrete inputs: runs of the definitions, and one use of each theorem with hypotheses.
pub mod Pe
pub mod Compose
pub mod Dwarf
pub mod Info
pub mod Tables
pub mod Map
pub mod Rsm
pub mod Aggregates
