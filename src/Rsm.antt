-- ===== src/Rsm.antt =====
-- src/rsm: the reader of Delphi's .rsm files.
pub mod Types
pub mod Internal
pub mod SubRecord
pub mod Procedures
pub mod Variables
pub mod AggregateTypes
pub mod Aggregates
pub mod Primitives
pub mod UnitTables
pub mod Lookup
pub mod Opening
