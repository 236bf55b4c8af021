-- ===== src/Dwarf/Info.antt =====
-- src/dwarf/dwarf_emitter.cpp: the entries of a compile unit. The codes of DWARF come from LLVM's
-- headers and are a parameter. `none` is a failed assertion, or a write outside the buffer.
pub mod Types
pub mod Symbols
pub mod Unit
pub mod Shown
pub mod Written
pub mod TypesWritten
pub mod TypesFound
pub mod TypesAdded
pub mod TypesKept
pub mod Levels
pub mod Ranges
pub mod UnitRead
pub mod UnitWritten
pub mod Sections
use vscode_delphi_extension.Base.{
  ℕ, ◌+◌, ◌%◌, ◌^◌, Bool, true, false, ◌&&◌, List, [], ◌∷◌, Option, none, some, ltb, ◌==◌,
  if◌then◌else◌, Bytes, codes,
}
use vscode_delphi_extension.Model.{
  PrimitiveKind, bool, char, wchar, int8, int16, int32, int64, uint8, uint16, uint32, uint64,
  float32, float64, float80, pchar, pwchar, LineEntry, Symbol, SymbolKind, CompileUnit,
}

-- The unit type, the language, the operations and the encodings that the writer uses.
pub record InfoCodes : Type 0 where
  pub ut_compile : ℕ
  pub lang_pascal83 : ℕ
  pub op_addr : ℕ
  pub op_breg6 : ℕ
  pub op_fbreg : ℕ
  pub ate_address : ℕ
  pub ate_boolean : ℕ
  pub ate_float : ℕ
  pub ate_signed : ℕ
  pub ate_unsigned : ℕ
  pub ate_unsigned_char : ℕ
  pub ate_utf : ℕ

pub record AddressRange : Type 0 where
  pub lo : ℕ
  pub hi : ℕ

-- The lambda `absorb` of `cuRange`; `none` is `first`.
unfoldable pub absorb : Option AddressRange → ℕ → Option AddressRange
absorb none a = if a == 0 then none else some (record { lo = a; hi = a })
absorb (some r) a =
    if a == 0
    then some r
    else some (record { lo = if ltb a r.lo then a else r.lo; hi = if ltb r.hi a then a else r.hi })

unfoldable pub absorb_lines : Option AddressRange → List LineEntry → Option AddressRange
unfolding absorb
absorb_lines r [] = r
absorb_lines r (le ∷ les) = absorb_lines (absorb r le.address) les

unfoldable pub absorb_symbols : Option AddressRange → List Symbol → Option AddressRange
unfolding absorb
absorb_symbols r [] = r
absorb_symbols r (sym ∷ syms) =
    absorb_symbols
      (elim sym.kind as (λ k. Option AddressRange) [
        | SymbolKind.function ↦ absorb r sym.address
        | _ ↦ r
      ])
      syms

unfoldable pub cu_range : CompileUnit → AddressRange
unfolding absorb_lines absorb_symbols
cu_range cu = elim (absorb_symbols (absorb_lines none cu.lines) cu.symbols) [
  | none ↦ record { lo = 0; hi = 0 }
  | some r ↦ r
]

-- The loop of `symbolEnd`.
unfoldable pub next_address : ℕ → ℕ → List Symbol → ℕ
next_address address best [] = best
next_address address best (other ∷ others) =
    next_address address
      (if ltb address other.address && ltb other.address best then other.address else best) others

unfoldable pub symbol_end : CompileUnit → Symbol → ℕ → ℕ
unfolding next_address
symbol_end cu sym cu_high =
    let best = next_address sym.address cu_high cu.symbols in
    if ltb sym.address best then best else (sym.address + 1) % 2 ^ 64

pub record PrimitiveDescriptor : Type 0 where
  pub name : Bytes
  pub byte_size : ℕ
  pub encoding : ℕ

unfoldable pub describe_primitive : InfoCodes → PrimitiveKind → PrimitiveDescriptor
describe_primitive c bool = record {
  name = codes "Boolean";
  byte_size = 1;
  encoding = c.ate_boolean;
}
describe_primitive c char = record {
  name = codes "AnsiChar";
  byte_size = 1;
  encoding = c.ate_unsigned_char;
}
describe_primitive c wchar = record { name = codes "Char"; byte_size = 2; encoding = c.ate_utf }
describe_primitive c int8 = record {
  name = codes "ShortInt";
  byte_size = 1;
  encoding = c.ate_signed;
}
describe_primitive c int16 = record {
  name = codes "SmallInt";
  byte_size = 2;
  encoding = c.ate_signed;
}
describe_primitive c int32 = record {
  name = codes "Integer";
  byte_size = 4;
  encoding = c.ate_signed;
}
describe_primitive c int64 = record { name = codes "Int64"; byte_size = 8; encoding = c.ate_signed }
describe_primitive c uint8 = record {
  name = codes "Byte";
  byte_size = 1;
  encoding = c.ate_unsigned;
}
describe_primitive c uint16 = record {
  name = codes "Word";
  byte_size = 2;
  encoding = c.ate_unsigned;
}
describe_primitive c uint32 = record {
  name = codes "Cardinal";
  byte_size = 4;
  encoding = c.ate_unsigned;
}
describe_primitive c uint64 = record {
  name = codes "UInt64";
  byte_size = 8;
  encoding = c.ate_unsigned;
}
describe_primitive c float32 = record {
  name = codes "Single";
  byte_size = 4;
  encoding = c.ate_float;
}
describe_primitive c float64 = record {
  name = codes "Double";
  byte_size = 8;
  encoding = c.ate_float;
}
describe_primitive c float80 = record {
  name = codes "Extended";
  byte_size = 10;
  encoding = c.ate_float;
}
describe_primitive c pchar = record {
  name = codes "PAnsiChar";
  byte_size = 8;
  encoding = c.ate_address;
}
describe_primitive c pwchar = record {
  name = codes "PWideChar";
  byte_size = 8;
  encoding = c.ate_address;
}
