-- ===== src/Dwarf.antt =====
-- src/dwarf: writing DWARF sections.
pub mod BytesBuf
pub mod LineProgram
pub mod Abbrev
pub mod Info
pub mod Reader
