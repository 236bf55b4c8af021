-- ===== src/Compose.antt =====
-- src/compose: stack-frame layout from the RSM records and the machine code.
pub mod MarkerSizes
pub mod Frame
