-- ===== src/Dwarf/Info/Unit.antt =====
-- src/dwarf/dwarf_emitter.cpp, `writeCompileUnit` and `emit`.
use vscode_delphi_extension.Base.{
  ℕ, ◌+◌, ◌-◌, ◌%◌, ◌^◌, List, [], ◌∷◌, ◌++◌, Option, some, if◌then◌else◌, ◌>>=◌, Bytes, codes,
  length, is_empty,
}
use vscode_delphi_extension.Model.{LineEntry, CompileUnit, Module}
use vscode_delphi_extension.Dwarf.BytesBuf.{u8, u16, u32, u64, uleb128, cstr, patch_u32}
use vscode_delphi_extension.Dwarf.Abbrev.{AbbrevCodes, abbrev_cu, write_abbrev_table}
use vscode_delphi_extension.Dwarf.LineProgram.{LineCodes, split_path, write_line_program}
use vscode_delphi_extension.Dwarf.Info.{InfoCodes, cu_range}
use vscode_delphi_extension.Dwarf.Info.Types.{emit_type_dies}
use vscode_delphi_extension.Dwarf.Info.Symbols.{emit_symbols}

-- The entry of the unit itself.
unfoldable pub emit_unit_die : InfoCodes → Bytes → CompileUnit → Bytes → ℕ → Bytes
unfolding cu_range
emit_unit_die c info cu producer stmt_list_offset =
    let split = split_path cu.source_path in
    let rng = cu_range cu in
    let named =
      cstr (cstr (u16 (cstr (uleb128 info abbrev_cu) producer) c.lang_pascal83) split.file)
        split.dir in
    u32 (u64 (u64 named rng.lo) ((rng.hi + 1) % 2 ^ 64)) stmt_list_offset

unfoldable pub write_compile_unit :
    InfoCodes → Bytes → Module → CompileUnit → Bytes → ℕ → ℕ → Option Bytes
unfolding emit_unit_die emit_type_dies emit_symbols
write_compile_unit c info mod_ cu producer stmt_list_offset abbrev_table_offset = do
  let reserved = info ++ (0 ∷ 0 ∷ 0 ∷ 0 ∷ [])
  let head = u32 (u8 (u8 (u16 reserved 5) c.ut_compile) 8) abbrev_table_offset
  let unit = emit_unit_die c head cu producer stmt_list_offset
  s ← emit_type_dies c mod_ cu (record { info = unit; type_offsets = [] })
  let all = u8 (emit_symbols c cu (cu_range cu) s.type_offsets s.info cu.symbols) 0
  patch_u32 all (length info) ((length all - length reserved) % 2 ^ 32)

pub record DwarfSections : Type 0 where
  pub debug_info : Bytes
  pub debug_abbrev : Bytes
  pub debug_line : Bytes
  pub debug_str : Bytes
  pub debug_line_str : Bytes

-- The loop over the units: `.debug_info` and `.debug_line`.
unfoldable pub emit_units :
    InfoCodes
    → LineCodes
    → (List LineEntry → List LineEntry)
    → Module
    → Bytes
    → Bytes
    → Bytes
    → List CompileUnit
    → Option (Bytes × Bytes)
unfolding write_compile_unit
emit_units c lc sort mod_ producer info line [] = some (info, line)
emit_units c lc sort mod_ producer info line (cu ∷ cus) =
    let skipped = emit_units c lc sort mod_ producer info line cus in
    if is_empty cu.lines then skipped else (do
      (line', stmt_list_off) ← write_line_program lc sort line cu
      info' ← write_compile_unit c info mod_ cu producer stmt_list_off 0
      emit_units c lc sort mod_ producer info' line' cus)

-- `error_out`, or the sections.
pub data Emitted : Type 0 where
  refused : Bytes → Emitted
  emitted : DwarfSections → Emitted

unfoldable pub emit :
    AbbrevCodes
    → InfoCodes
    → LineCodes
    → (List LineEntry → List LineEntry)
    → Module
    → Bytes
    → Option Emitted
unfolding emit_units
emit ac c lc sort mod_ producer =
    if is_empty mod_.units then some (refused (codes "model has no compile units")) else (do
      (info, line) ← emit_units c lc sort mod_ producer [] [] mod_.units
      some (
          emitted (record {
            debug_info = info;
            debug_abbrev = write_abbrev_table ac [];
            debug_line = line;
            debug_str = [];
            debug_line_str = [];
          })))
