-- ===== src/Dwarf/Info/Sections.antt =====
-- src/dwarf/dwarf_emitter.cpp: `emit` writes a line program and the entries of each unit with lines.
use vscode_delphi_extension.Base.{
  ◌+◌, ◌%◌, ◌^◌, ◌≡◌, refl, true, false, List, [], ◌∷◌, ◌++◌, map, All, Bytes, codes, length,
  is_empty, arith, Bool-cases, inl, inr, Returns, Returns-bind, Returns-map,
}
use vscode_delphi_extension.Model.{LineEntry, CompileUnit, Module}
use vscode_delphi_extension.Dwarf.BytesBuf.{u32}
use vscode_delphi_extension.Dwarf.Abbrev.{Abbrev, AbbrevCodes, abbrevs}
use vscode_delphi_extension.Dwarf.Abbrev.Reader.{
  Reads, read_abbrevs, AreAbbrevCodes, write_abbrev_table-Reads,
}
use vscode_delphi_extension.Dwarf.LineProgram.{LineCodes, split_path, write_header}
use vscode_delphi_extension.Dwarf.LineProgram.Consumer.{AreLineCodes, Runs, initial}
use vscode_delphi_extension.Dwarf.LineProgram.Program.{Ascending, Fit, row_of}
use vscode_delphi_extension.Dwarf.LineProgram.Unit.{write_line_program-Runs}
use vscode_delphi_extension.Dwarf.Info.{InfoCodes}
use vscode_delphi_extension.Dwarf.Info.Unit.{
  write_compile_unit, emit_units, Emitted, refused, emitted, emit,
}
use vscode_delphi_extension.Dwarf.Info.TypesWritten.{HasArrays}
use vscode_delphi_extension.Dwarf.Info.UnitRead.{IsUnit, UnitShown}
use vscode_delphi_extension.Dwarf.Info.UnitWritten.{write_compile_unit-UnitShown}
use vscode_delphi_extension.Dwarf.Reader.Forms.{AreInfoCodes, IsText}

-- A unit that can be written, with its lines in order once they are sorted.
pub record IsEmittable (sort : List LineEntry → List LineEntry) (mod_ : Module) (cu : CompileUnit)
    : Type 0 where
  pub unit_is : IsUnit mod_ cu
  pub ascending : Ascending (sort cu.lines)
  pub fit : Fit (sort cu.lines)

-- The line program of a unit behind those before it: its lengths, its header, and a program that
-- makes a consumer add the rows of the unit.
pub record LinesShown (lc : LineCodes) (sort : List LineEntry → List LineEntry) (line : Bytes)
    (cu : CompileUnit) (out : Bytes) : Type 0 where
  pub program : Bytes
  pub wrote :
      (let header = write_header lc (split_path cu.source_path) [] in
        let behind = header ++ program in
        out
        ≡ line
          ++ (u32 [] ((length behind + 8) % 2 ^ 32)
              ++ (5 ∷ 0 ∷ 8 ∷ 0 ∷ (u32 [] (length header % 2 ^ 32) ++ behind))))
  pub runs : Runs lc initial program (map row_of (sort cu.lines))

module _ (ac : AbbrevCodes) (c : InfoCodes) (lc : LineCodes)
    (sort : List LineEntry → List LineEntry) (are : AreInfoCodes ac c) (mod_ : Module)
    (producer : Bytes) where
  -- The two sections grow unit by unit, and units without lines add nothing. The entry of a unit
  -- points to its line program.
  pub data UnitsShown : Bytes → Bytes → List CompileUnit → Bytes → Bytes → Type 0 where
    no_units : {info line : Bytes} → UnitsShown info line [] info line
    skipped :
        {info line info' line' : Bytes} {cu : CompileUnit} {cus : List CompileUnit}
        → is_empty cu.lines ≡ true
        → UnitsShown info line cus info' line'
        → UnitsShown info line (cu ∷ cus) info' line'
    shown :
        {info line info1 line1 info' line' : Bytes} {cu : CompileUnit} {cus : List CompileUnit}
        → is_empty cu.lines ≡ false
        → LinesShown lc sort line cu line1
        → UnitShown ac c are mod_ info cu producer (length line % 2 ^ 32) 0 info1
        → UnitsShown info1 line1 cus info' line'
        → UnitsShown info line (cu ∷ cus) info' line'

  module _ (lines_are : AreLineCodes lc) (has : HasArrays mod_) (text_is : IsText producer) where
    emit_units-UnitsShown :
        (info line : Bytes) (cus : List CompileUnit)
        → All (IsEmittable sort mod_) cus
        → Returns
            (λ (info', line'). UnitsShown info line cus info' line')
            (emit_units c lc sort mod_ producer info line cus)
    unfolding emit_units
    emit_units-UnitsShown info line [] are_all = no_units
    emit_units-UnitsShown info line (cu ∷ cus) (is, are_all) =
        elim (Bool-cases (is_empty cu.lines)) [
          | inl without ↦ rw without (
              Returns-map (λ (info', line'). UnitsShown info line cus info' line')
                (λ (info', line'). UnitsShown info line (cu ∷ cus) info' line')
                (emit_units c lc sort mod_ producer info line cus) (λ r u. skipped without u)
                (emit_units-UnitsShown info line cus are_all))
          | inr with_lines ↦
              let (program, wrote, runs) =
                write_line_program-Runs lc sort line cu lines_are is.ascending is.fit in
              let header = write_header lc (split_path cu.source_path) [] in
              let behind = header ++ program in
              let line1 =
                line
                ++ (u32 [] ((length behind + 8) % 2 ^ 32)
                    ++ (5 ∷ 0 ∷ 8 ∷ 0 ∷ (u32 [] (length header % 2 ^ 32) ++ behind))) in
              let offset = length line % 2 ^ 32 in
              rw (with_lines, wrote)
                (Returns-bind (UnitShown ac c are mod_ info cu producer offset 0)
                  (λ (info', line'). UnitsShown info line (cu ∷ cus) info' line')
                  (write_compile_unit c info mod_ cu producer offset 0)
                  (λ info1. emit_units c lc sort mod_ producer info1 line1 cus)
                  (write_compile_unit-UnitShown ac c are mod_ info cu producer offset 0 is.unit_is
                    has text_is (omega arith))
                  (λ info1 u.
                    Returns-map (λ (info', line'). UnitsShown info1 line1 cus info' line')
                      (λ (info', line'). UnitsShown info line (cu ∷ cus) info' line')
                      (emit_units c lc sort mod_ producer info1 line1 cus)
                      (λ r more.
                        shown with_lines (record { program = program; wrote = refl; runs = runs }) u
                          more)
                      (emit_units-UnitsShown info1 line1 cus are_all)))
        ]

  -- The error is for a module without units; else the sections show its units.
  abbrev pub IsEmitted : Emitted → Type 0
  IsEmitted (refused error_out) =
      (mod_.units ≡ []) × (error_out ≡ codes "model has no compile units")
  IsEmitted (emitted s) =
      (is_empty mod_.units ≡ false)
      × UnitsShown [] [] mod_.units s.debug_info s.debug_line
      × Reads (List Abbrev) read_abbrevs [] (abbrevs ac) s.debug_abbrev 44
      × (s.debug_str ≡ [])
      × (s.debug_line_str ≡ [])

  -- For a module whose units can be written, arrays included, `emit` fails no assertion. It
  -- refuses a module without units, with its error, and no other. For each other module
  -- `.debug_info` and `.debug_line` are built up unit by unit, in the order of the module and
  -- without the units that have no lines: each line program makes a consumer add the rows of its
  -- unit, and each unit reads back as its entries, with the offset of its own line program;
  -- `.debug_abbrev` reads back as the abbreviations that the entries are read with.
  pub emit-IsEmitted :
      AreLineCodes lc
      → AreAbbrevCodes ac
      → HasArrays mod_
      → IsText producer
      → All (IsEmittable sort mod_) mod_.units
      → Returns IsEmitted (emit ac c lc sort mod_ producer)
  unfolding emit
  emit-IsEmitted lines_are names_are has text_is are_all = elim (Bool-cases (is_empty mod_.units)) [
    | inl none_there ↦ rw none_there (empty mod_.units none_there, refl)
    | inr some_there ↦ rw some_there (
        Returns-bind (λ (info', line'). UnitsShown [] [] mod_.units info' line') IsEmitted
          (emit_units c lc sort mod_ producer [] [] mod_.units) _
          (emit_units-UnitsShown lines_are has text_is [] [] mod_.units are_all)
          (λ r u. (some_there, u, write_abbrev_table-Reads ac [] names_are, refl, refl)))
  ]
    where
      empty : (cus : List CompileUnit) → is_empty cus ≡ true → cus ≡ []
      empty [] e = refl
      empty (cu ∷ cus) e = absurd (ground arith)
