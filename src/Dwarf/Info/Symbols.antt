-- ===== src/Dwarf/Info/Symbols.antt =====
-- src/dwarf/dwarf_emitter.cpp, `emitSubprogramAndVariableDIEs`.
use vscode_delphi_extension.Base.{
  ℕ, zero, suc, ◌+◌, ◌%◌, ◌^◌, not, ◌&&◌, ◌||◌, List, [], ◌∷◌, ltb, ◌==◌, if◌then◌else◌, ℤ, pos,
  negsuc, eqb_ℤ, Bytes, length, is_empty, bit_and, bit_or,
}
use vscode_delphi_extension.Model.{TypeId, LocalVar, Symbol, SymbolKind, CompileUnit}
use vscode_delphi_extension.Dwarf.BytesBuf.{
  u8, u32, u64, uleb128, cstr, raw, low_group, shift_right_7,
}
use vscode_delphi_extension.Dwarf.Abbrev.{
  abbrev_subprogram, abbrev_variable, abbrev_typed_variable, abbrev_subprogram_with_kids,
  abbrev_formal_parameter, abbrev_local_variable,
}
use vscode_delphi_extension.Dwarf.Info.{InfoCodes, AddressRange, symbol_end}
use vscode_delphi_extension.Dwarf.Info.Types.{offset_of}

-- The loop of the lambda `sleb128Bytes`, with fuel.
unfoldable pub sleb_bytes : ℕ → ℤ → Bytes
unfolding low_group shift_right_7
sleb_bytes zero v = []
sleb_bytes (suc fuel) v =
    let b = low_group v in
    let v' = shift_right_7 v in
    let sign = not (bit_and b 0x40 == 0) in
    let more = bit_or b 0x80 ∷ sleb_bytes fuel v' in
    if eqb_ℤ v' (pos 0) && not sign || eqb_ℤ v' (negsuc 0) && sign then b ∷ [] else more

unfoldable pub sleb128_bytes : ℤ → Bytes
unfolding sleb_bytes
sleb128_bytes = sleb_bytes 10

-- A location of an operation and a signed operand, behind its length.
unfoldable pub emit_offset_location : Bytes → ℕ → ℤ → Bytes
unfolding sleb128_bytes
emit_offset_location info op v =
    let leb = sleb128_bytes v in raw (u8 (uleb128 info (1 + length leb)) op) leb

-- The lambda `emitParamOrLocal`.
unfoldable pub emit_param_or_local : InfoCodes → List (TypeId × ℕ) → Bytes → LocalVar → ℕ → Bytes
unfolding emit_offset_location
emit_param_or_local c offsets info v abbrev_code =
    emit_offset_location (u32 (cstr (uleb128 info abbrev_code) v.name) (offset_of offsets v.type))
      c.op_fbreg v.stack_offset

unfoldable pub emit_vars : InfoCodes → List (TypeId × ℕ) → Bytes → List LocalVar → ℕ → Bytes
unfolding emit_param_or_local
emit_vars c offsets info [] abbrev_code = info
emit_vars c offsets info (v ∷ vs) abbrev_code =
    emit_vars c offsets (emit_param_or_local c offsets info v abbrev_code) vs abbrev_code

-- The name, the addresses and the flag, behind the abbreviation code.
unfoldable pub emit_head : Bytes → ℕ → Symbol → ℕ → Bytes
emit_head info abbrev_code sym end =
    u8 (u64 (u64 (cstr (uleb128 info abbrev_code) sym.name) sym.address) end) 1

unfoldable pub emit_subprogram : InfoCodes → List (TypeId × ℕ) → Bytes → Symbol → ℕ → Bytes
unfolding emit_head emit_offset_location emit_vars
emit_subprogram c offsets info sym end =
    if is_empty sym.params && is_empty sym.locals
    then emit_head info abbrev_subprogram sym end
    else (let head =
          emit_offset_location (emit_head info abbrev_subprogram_with_kids sym end) c.op_breg6
            (pos 0) in
        let params = emit_vars c offsets head sym.params abbrev_formal_parameter in
        u8 (emit_vars c offsets params sym.locals abbrev_local_variable) 0)

-- The name and the absolute location of a variable, behind the abbreviation code.
unfoldable pub emit_place : InfoCodes → Bytes → ℕ → Symbol → Bytes
emit_place c info abbrev_code sym =
    u64 (u8 (uleb128 (cstr (uleb128 info abbrev_code) sym.name) (1 + 8)) c.op_addr) sym.address

unfoldable pub emit_variable : InfoCodes → List (TypeId × ℕ) → Bytes → Symbol → Bytes
unfolding emit_place
emit_variable c offsets info sym =
    let type_off = offset_of offsets sym.type in
    if not (type_off == 0)
    then u8 (u32 (emit_place c info abbrev_typed_variable sym) type_off) 1
    else u8 (emit_place c info abbrev_variable sym) 1

unfoldable pub emit_symbol :
    InfoCodes → CompileUnit → AddressRange → List (TypeId × ℕ) → Bytes → Symbol → Bytes
unfolding emit_subprogram emit_variable symbol_end
emit_symbol c cu rng offsets info sym = elim sym.kind [
  | SymbolKind.function ↦
      if ltb sym.address rng.lo || ltb rng.hi sym.address
      then info
      else emit_subprogram c offsets info sym (symbol_end cu sym ((rng.hi + 1) % 2 ^ 64))
  | SymbolKind.variable ↦ emit_variable c offsets info sym
  | SymbolKind.unknown ↦ info
]

unfoldable pub emit_symbols :
    InfoCodes → CompileUnit → AddressRange → List (TypeId × ℕ) → Bytes → List Symbol → Bytes
unfolding emit_symbol
emit_symbols c cu rng offsets info [] = info
emit_symbols c cu rng offsets info (sym ∷ syms) =
    emit_symbols c cu rng offsets (emit_symbol c cu rng offsets info sym) syms
