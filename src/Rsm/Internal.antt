-- ===== src/Rsm/Internal.antt =====
-- src/rsm/rsm_internal.h: record tags, Delphi's primitive types and byte-level helpers.
pub mod Search
use vscode_delphi_extension.Base.{
  ℕ, zero, suc, ◌+◌, Bool, true, false, ◌&&◌, ◌||◌, Option, none, some, List, [], ◌∷◌, ltb, leb,
  ◌==◌, if◌then◌else◌, ◌>>=◌, Bytes, length, is_empty, at, read, take, drop, codes, beq_bytes, ◌≡◌,
}
use vscode_delphi_extension.Model.{
  PrimitiveKind, bool, char, wchar, int8, int16, int32, int64, uint8, uint16, uint32, uint64,
  float32, float64, float80, pchar, pwchar,
}

abbrev pub tag_primitive : ℕ
tag_primitive = 0x2A

abbrev pub tag_variable : ℕ
tag_variable = 0x20

abbrev pub tag_param : ℕ
tag_param = 0x21

abbrev pub tag_var_param : ℕ
tag_var_param = 0x22

abbrev pub tag_function : ℕ
tag_function = 0x28

abbrev pub function_end_marker : ℕ
function_end_marker = 0x63

abbrev pub function_sub_tag_nested : ℕ
function_sub_tag_nested = 0x41

abbrev pub record_terminator : ℕ
record_terminator = 0xFF

abbrev pub type_id_marker_0 : ℕ
type_id_marker_0 = 0x9C

abbrev pub type_id_marker_1 : ℕ
type_id_marker_1 = 0x13

abbrev pub var_payload_sub_tag : ℕ
var_payload_sub_tag = 0x66

abbrev pub var_trailer_marker_0 : ℕ
var_trailer_marker_0 = 0x9C

abbrev pub var_trailer_marker_1 : ℕ
var_trailer_marker_1 = 0x09

pub record PrimitiveDesc : Type 0 where
  pub name : Bytes
  pub kind : PrimitiveKind
  pub byte_size : ℕ

abbrev desc : Bytes → PrimitiveKind → ℕ → PrimitiveDesc
desc n k s = record { name = n; kind = k; byte_size = s }

unfoldable pub primitive_table : List PrimitiveDesc
primitive_table =
    desc (codes "Boolean") bool 1
    ∷ desc (codes "ByteBool") bool 1
    ∷ desc (codes "WordBool") bool 2
    ∷ desc (codes "LongBool") bool 4
    ∷ desc (codes "AnsiChar") char 1
    ∷ desc (codes "Char") wchar 2
    ∷ desc (codes "WideChar") wchar 2
    ∷ desc (codes "ShortInt") int8 1
    ∷ desc (codes "SmallInt") int16 2
    ∷ desc (codes "Integer") int32 4
    ∷ desc (codes "LongInt") int32 4
    ∷ desc (codes "Int64") int64 8
    ∷ desc (codes "NativeInt") int64 8
    ∷ desc (codes "Comp") int64 8
    ∷ desc (codes "Byte") uint8 1
    ∷ desc (codes "Word") uint16 2
    ∷ desc (codes "Cardinal") uint32 4
    ∷ desc (codes "LongWord") uint32 4
    ∷ desc (codes "UInt64") uint64 8
    ∷ desc (codes "NativeUInt") uint64 8
    ∷ desc (codes "Single") float32 4
    ∷ desc (codes "Real") float64 8
    ∷ desc (codes "Real48") float64 6
    ∷ desc (codes "Double") float64 8
    ∷ desc (codes "Extended") float64 8
    ∷ desc (codes "Extended80") float80 10
    ∷ desc (codes "Currency") int64 8
    ∷ desc (codes "Pointer") uint64 8
    ∷ desc (codes "UnicodeString") pwchar 8
    ∷ desc (codes "WideString") pwchar 8
    ∷ desc (codes "AnsiString") pchar 8
    ∷ desc (codes "UTF8String") pchar 8
    ∷ desc (codes "PChar") pwchar 8
    ∷ desc (codes "PWideChar") pwchar 8
    ∷ desc (codes "PAnsiChar") pchar 8
    ∷ desc (codes "string") pwchar 8
    ∷ []

lookup_in : Bytes → List PrimitiveDesc → Option PrimitiveDesc
lookup_in name [] = none
lookup_in name (d ∷ ds) = if beq_bytes d.name name then some d else lookup_in name ds

unfoldable pub lookup_primitive_desc : Bytes → Option PrimitiveDesc
unfolding lookup_in primitive_table
lookup_primitive_desc name = lookup_in name primitive_table

-- `memcmp` of the pattern with the bytes at `i`.
abbrev pub matches : Bytes → ℕ → Bytes → Bool
matches buf i pat = beq_bytes (take (length pat) (drop i buf)) pat

-- The loop from `i` on, with the rounds that are left.
find_loop : ℕ → Bytes → ℕ → ℕ → Bytes → Option ℕ
find_loop zero buf i end pat = none
find_loop (suc n) buf i end pat =
    let rest = find_loop n buf (i + 1) end pat in
    if leb (i + length pat) end then (if matches buf i pat then some i else rest) else none

-- `none` is `npos`. Every comparison lies below `end`, which is not beyond the buffer.
unfoldable pub find_bytes : Bytes → ℕ → ℕ → Bytes → Option ℕ
unfolding find_loop
find_bytes buf start end pat =
    if is_empty pat || ltb (length buf) end
    then none
    else if ltb end (length pat)
    then none
    else find_loop (end + 1) buf start end pat

-- `std::isalnum` in the C locale.
abbrev pub is_alnum : ℕ → Bool
is_alnum c = leb b'0' c && leb c b'9' || leb b'A' c && leb c b'Z' || leb b'a' c && leb c b'z'

abbrev pub is_name_char : ℕ → Bool
is_name_char c = is_alnum c || c == b'_' || c == b'.' || c == b'$' || c == b'@'

-- The loop over the `n` bytes from `p` on. The outer `none` is a read outside the buffer.
unfoldable pub is_printable_name : Bytes → ℕ → ℕ → Option Bool
is_printable_name buf p zero = some true
is_printable_name buf p (suc n) =
    let rest = is_printable_name buf (p + 1) n in
    (do c ← read buf p; (if is_name_char c then rest else some false))
