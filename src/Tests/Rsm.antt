-- ===== src/Tests/Rsm.antt =====
-- src/rsm on small files.
use vscode_delphi_extension.Base.{
  ℕ, zero, suc, ◌≤◌, ◌↔◌, pos, true, false, leb, find, arith, ◌≡◌, refl, Option, some, none, List,
  [], ◌∷◌, ◌++◌, map, min, length, Bytes, codes, read_u32, Returns,
}
use vscode_delphi_extension.Rsm.Types.{Header, ProcedureRecord, Variable, UnitTypeEntry}
use vscode_delphi_extension.Rsm.Internal.{is_printable_name}
use vscode_delphi_extension.Rsm.Opening.{opened, magic_number, open_buffer}
use vscode_delphi_extension.Rsm.Opening.RoundTrip.{IsHeader, header_bytes, open_buffer-header_bytes}
use vscode_delphi_extension.Rsm.SubRecord.{parse_sub}
use vscode_delphi_extension.Rsm.SubRecord.Sound.{IfFound, IsSub, parse_sub-Returns}
use vscode_delphi_extension.Rsm.Procedures.{scan_procedures}
use vscode_delphi_extension.Rsm.Procedures.Order.{InOrder}
use vscode_delphi_extension.Rsm.Variables.{is_inside_procedure, scan_procedures_and_variables}
use vscode_delphi_extension.Rsm.Variables.Inside.{IsCovered, is_inside_procedure_iff}
use vscode_delphi_extension.Rsm.Variables.Order.{AreFound, scan_procedures_and_variables-Returns}
use vscode_delphi_extension.Rsm.Primitives.{boolean_sig, scan_primitive_table}
use vscode_delphi_extension.Rsm.Primitives.Sound.{AreKnown, scan_primitive_table-AreKnown}
use vscode_delphi_extension.Rsm.UnitTables.{UnitAnchor, anchors_and_tables}
use vscode_delphi_extension.Rsm.UnitTables.Tables.{AreTables, anchors_and_tables-Returns}
use vscode_delphi_extension.Rsm.Lookup.{
  find_variable_at, pascal_name, primitive_name_for_marker, unit_anchor_for,
}
use vscode_delphi_extension.Rsm.Lookup.ByAddress.{first_by, find_variable_at-first_by}
use vscode_delphi_extension.Rsm.Lookup.Names.{offsets, pascal_name-lookup}

abbrev zeros : ℕ → Bytes
zeros zero = []
zeros (suc n) = 0 ∷ zeros n

-- A parameter `abc` of a primitive type at offset 16, and the end marker of its procedure.
abbrev param : Bytes
param = 0x21 ∷ 3 ∷ (codes "abc" ++ (0x66 ∷ 0 ∷ 0 ∷ 2 ∷ 16 ∷ 0x63 ∷ 0x28 ∷ zeros 20))

-- The procedure `Foo` at the address 0x401000, behind the part that the scan skips.
abbrev proc : Bytes
proc =
    zeros 0x426
    ++ (0x28 ∷ 3 ∷ (codes "Foo" ++ (0xA0 ∷ 0 ∷ 0 ∷ 1 ∷ 2 ∷ 3 ∷ 4 ∷ 0 ∷ 0 ∷ 1 ∷ 4 ∷ param)))

parse_sub_run :
    elim (parse_sub param 0) as (λ x. Option ℕ) [
      | none ↦ none
      | some none ↦ none
      | some (some r) ↦ some r.total_size
    ]
    ≡ some 10
unfolding parse_sub is_printable_name
parse_sub_run = refl

parse_sub-Returns_example : Returns (IfFound (IsSub param 0)) (parse_sub param 0)
parse_sub-Returns_example = parse_sub-Returns param 0

scan_procedures_run :
    elim (scan_procedures proc) as (λ x. Option (List (Bytes × ℕ))) [
      | none ↦ none
      | some ps ↦ some (map (λ (p : ProcedureRecord). (p.name, p.file_offset)) ps)
    ]
    ≡ some ((codes "Foo", 0x426) ∷ [])
unfolding scan_procedures is_printable_name read_u32 parse_sub
scan_procedures_run = refl

scan_procedures_and_variables-Returns_example :
    Returns
      (λ r.
        InOrder (min 0x426 (length proc)) r.0 (length proc)
        × AreFound r.0 (min 0x426 (length proc)) r.1 (length proc))
      (scan_procedures_and_variables proc)
scan_procedures_and_variables-Returns_example = scan_procedures_and_variables-Returns proc

abbrev procedure : ℕ → ℕ → ProcedureRecord
procedure from to = record {
  name = codes "Foo";
  address = 0x401000;
  params = [];
  locals = [];
  file_offset = from;
  file_offset_end = to;
  has_static_link = false;
}

is_inside_procedure_iff_example :
    (is_inside_procedure (procedure 10 20 ∷ procedure 30 40 ∷ []) 35 ≡ true)
    ↔ IsCovered 35 (procedure 10 20 ∷ procedure 30 40 ∷ [])
is_inside_procedure_iff_example =
    is_inside_procedure_iff 35 10 (procedure 10 20 ∷ procedure 30 40 ∷ []) 50 (omega arith)

-- The table of primitive types, with `Boolean` and `Byte`.
abbrev primitives : Bytes
primitives =
    zeros 0x400
    ++ (boolean_sig ++ (0xFF ∷ 0x2A ∷ 4 ∷ (codes "Byte" ++ (0x9C ∷ 0x13 ∷ 7 ∷ 1 ∷ zeros 20))))

scan_primitive_table-AreKnown_example :
    Returns
      (λ ps. AreKnown (min 0x400 (length primitives)) ps (length primitives) × (length ps ≤ 64))
      (scan_primitive_table primitives)
scan_primitive_table-AreKnown_example = scan_primitive_table-AreKnown primitives

-- A unit `Unit1` with a table of one type.
abbrev units : Bytes
units =
    zeros 0x420
    ++ (2
        ∷ 5
        ∷ (codes "Unit1"
            ++ (2
                ∷ 0x70
                ∷ 9
                ∷ (codes "Unit1.pas" ++ (zeros 20 ++ (0x66 ∷ 7 ∷ (codes "Integer" ++ zeros 40)))))))

anchors_and_tables-Returns_example : Returns (AreTables units) (anchors_and_tables units)
anchors_and_tables-Returns_example = anchors_and_tables-Returns units

abbrev counter : Variable
counter = record {
  name = codes "Counter";
  address = 0x402000;
  stack_offset = pos 0;
  inline_type_id = 0;
  trailer_type_id = 0;
  type_marker = 2;
  is_primitive = true;
  has_trailer = false;
  file_offset = 0x500;
  pascal_type = [];
  unit_anchor_offset = 0;
}

find_variable_at-first_by_example :
    find_variable_at (counter ∷ counter ∷ []) 0x402000
    ≡ first_by (λ v. v.address) (λ v. leb 0x00400000 v.address) 0x402000 (counter ∷ counter ∷ [])
find_variable_at-first_by_example = find_variable_at-first_by (counter ∷ counter ∷ []) 0x402000

abbrev unit1 : List UnitAnchor
unit1 = (record { file_offset = 0x420; name = codes "Unit1" }) ∷ []

abbrev table1 : List (ℕ × List UnitTypeEntry)
table1 = (0x420, (record { name = codes "Integer"; hash4 = 9 }) ∷ []) ∷ []

-- The name is found.
pascal_name_run : pascal_name unit1 table1 counter ≡ some (codes "Integer")
unfolding pascal_name find
pascal_name_run = refl

pascal_name-lookup_example :
    pascal_name unit1 table1 counter
    ≡ primitive_name_for_marker table1 (unit_anchor_for (offsets unit1) 0x500) 2
pascal_name-lookup_example =
    pascal_name-lookup (λ xs. xs) unit1 0x430 table1 counter (omega arith) refl

abbrev header : Header
header = record {
  magic = magic_number;
  metadata_start = 0x420;
  unit_count = 12;
  version_minor = 1;
  timestamp = 0x5A6B7C8D;
  flags = 0x2000234D;
  legacy_imagebase = 0x400000;
  reserved_1c = 0;
  exe_path = codes "two.exe";
}

header-IsHeader : IsHeader header
header-IsHeader = record { magic_is = refl; words = omega arith; path_is = omega arith }

open_buffer-header_bytes_example :
    open_buffer (header_bytes header (1 ∷ 2 ∷ [])) ≡ some (opened header)
open_buffer-header_bytes_example = open_buffer-header_bytes header (1 ∷ 2 ∷ []) header-IsHeader
