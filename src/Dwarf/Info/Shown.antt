-- ===== src/Dwarf/Info/Shown.antt =====
-- What the entries of a unit should say.
use vscode_delphi_extension.Base.{
  ℕ, ◌+◌, ◌%◌, ◌^◌, ◌&&◌, ◌||◌, List, [], ◌∷◌, ◌++◌, map, ltb, ◌==◌, if◌then◌else◌, pos, is_empty,
}
use vscode_delphi_extension.Model.{PrimitiveKind, TypeId, LocalVar, Symbol, SymbolKind, CompileUnit}
use vscode_delphi_extension.Dwarf.Abbrev.{AbbrevCodes}
use vscode_delphi_extension.Dwarf.Info.{InfoCodes, AddressRange, describe_primitive, symbol_end}
use vscode_delphi_extension.Dwarf.Info.Types.{offset_of}
use vscode_delphi_extension.Dwarf.Reader.{
  Entry, end_of_children, die, Value, number, text, location, frame_base, frame_slot, fixed,
}

module _ (ac : AbbrevCodes) where
  abbrev pub base_type_entry : InfoCodes → PrimitiveKind → Entry
  base_type_entry c k = die ac.tag_base_type ac.children_no (
      (ac.at_name, text (describe_primitive c k).name)
      ∷ (ac.at_byte_size, number (describe_primitive c k).byte_size)
      ∷ (ac.at_encoding, number (describe_primitive c k).encoding)
      ∷ [])

  -- An array from 1 to its length.
  abbrev pub array_type_entry : ℕ → Entry
  array_type_entry element_offset =
      die ac.tag_array_type ac.children_yes ((ac.at_type, number element_offset) ∷ [])

  abbrev pub subrange_entry : ℕ → Entry
  subrange_entry len =
      die ac.tag_subrange_type ac.children_no ((ac.at_upper_bound, number len) ∷ [])

  abbrev pub var_entry : List (TypeId × ℕ) → ℕ → LocalVar → Entry
  var_entry offsets tag v = die tag ac.children_no (
      (ac.at_name, text v.name)
      ∷ (ac.at_type, number (offset_of offsets v.type))
      ∷ (ac.at_location, location (frame_slot v.stack_offset))
      ∷ [])

  abbrev pub head_attributes : Symbol → ℕ → List (ℕ × Value) → List (ℕ × Value)
  head_attributes sym end more =
      (ac.at_name, text sym.name)
      ∷ (ac.at_low_pc, number sym.address)
      ∷ (ac.at_high_pc, number end)
      ∷ (ac.at_external, number 1)
      ∷ more

  -- A function, with its parameters and its locals as children if there are any.
  abbrev pub subprogram_entries : List (TypeId × ℕ) → Symbol → ℕ → List Entry
  subprogram_entries offsets sym end =
      if is_empty sym.params && is_empty sym.locals
      then die ac.tag_subprogram ac.children_no (head_attributes sym end []) ∷ []
      else die ac.tag_subprogram ac.children_yes
          (head_attributes sym end ((ac.at_frame_base, location (frame_base (pos 0))) ∷ []))
        ∷ (map (var_entry offsets ac.tag_formal_parameter) sym.params
            ++ (map (var_entry offsets ac.tag_variable) sym.locals ++ (end_of_children ∷ [])))

  -- A variable, with its type if that has an entry.
  abbrev pub variable_entry : List (TypeId × ℕ) → Symbol → Entry
  variable_entry offsets sym = die ac.tag_variable ac.children_no (
      (ac.at_name, text sym.name)
      ∷ (ac.at_location, location (fixed sym.address))
      ∷ (if offset_of offsets sym.type == 0
          then (ac.at_external, number 1) ∷ []
          else (ac.at_type, number (offset_of offsets sym.type)) ∷ (ac.at_external, number 1) ∷ []))

  abbrev pub symbol_entries : CompileUnit → AddressRange → List (TypeId × ℕ) → Symbol → List Entry
  symbol_entries cu rng offsets sym = elim sym.kind [
    | SymbolKind.function ↦
        if ltb sym.address rng.lo || ltb rng.hi sym.address
        then []
        else subprogram_entries offsets sym (symbol_end cu sym ((rng.hi + 1) % 2 ^ 64))
    | SymbolKind.variable ↦ variable_entry offsets sym ∷ []
    | SymbolKind.unknown ↦ []
  ]

  abbrev pub symbols_entries :
      CompileUnit → AddressRange → List (TypeId × ℕ) → List Symbol → List Entry
  symbols_entries cu rng offsets [] = []
  symbols_entries cu rng offsets (sym ∷ syms) =
      symbol_entries cu rng offsets sym ++ symbols_entries cu rng offsets syms
