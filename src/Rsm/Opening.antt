-- ===== src/Rsm/Opening.antt =====
-- src/rsm/rsm_reader.cpp, `Reader::open` between the reading of the file and the scans. The outer
-- `none` is a read outside the buffer.
pub mod RoundTrip
use vscode_delphi_extension.Base.{
  ℕ, zero, suc, ◌+◌, ◌-◌, Bool, true, false, not, Option, none, some, List, [], ◌∷◌, ◌++◌, ◌==◌,
  ltb, if◌then◌else◌, ◌>>=◌, Bytes, codes, take, drop, length, read, read_u32,
}
use vscode_delphi_extension.Rsm.Types.{Header}

abbrev pub magic_number : ℕ
magic_number = 0x37485343

-- `error_` when `open` returns false, and the header when it goes on.
pub data Opening : Type 0 where
  failed : Bytes → Opening
  opened : Header → Opening

-- `strnlen` and `std::string(const char*)`: the bytes before the first zero.
unfoldable pub until_zero : Bytes → Bytes
until_zero [] = []
until_zero (b ∷ bs) = let rest = until_zero bs in if b == 0 then [] else b ∷ rest

abbrev pub too_short : Bytes
too_short = codes "file too short to contain RSM header"

abbrev pub bad_magic : Bytes → Bytes
bad_magic buf =
    codes "bad magic: expected \"CSH7\", got \"" ++ (until_zero (take 4 buf) ++ codes "\"")

unfoldable pub read_fields : Bytes → ℕ → Option Header
read_fields buf magic = do
  metadata_start ← read_u32 buf 0x04
  unit_count ← read_u32 buf 0x08
  version_minor ← read_u32 buf 0x0C
  timestamp ← read_u32 buf 0x10
  flags ← read_u32 buf 0x14
  legacy_imagebase ← read_u32 buf 0x18
  reserved_1c ← read_u32 buf 0x1C
  some (record {
    magic = magic;
    metadata_start = metadata_start;
    unit_count = unit_count;
    version_minor = version_minor;
    timestamp = timestamp;
    flags = flags;
    legacy_imagebase = legacy_imagebase;
    reserved_1c = reserved_1c;
    exe_path = until_zero (drop 0x20 buf);
  })

unfoldable pub open_buffer : Bytes → Option Opening
unfolding read_fields
open_buffer buf = if ltb (length buf) 0x21 then some (failed too_short) else (do
  magic ← read_u32 buf 0
  (if not (magic == magic_number)
      then some (failed (bad_magic buf))
      else (do h ← read_fields buf magic; some (opened h))))
