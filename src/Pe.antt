-- ===== src/Pe.antt =====
-- src/pe: reading machine code and patching PE images.
pub mod Prologue
pub mod SizeSniffer
pub mod ThunkScanner
