-- ===== src/Map.antt =====
-- src/map: reading a Delphi map file.
pub mod Types
pub mod Text
pub mod Numbers
pub mod Parser
pub mod Populate
