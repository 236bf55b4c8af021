-- ===== src/Dwarf/Info/Written.antt =====
-- The symbols of a unit are written as the entries that they should have.
use vscode_delphi_extension.Base.{
  ℕ, ◌+◌, ◌%◌, ◌^◌, ◌≤◌, ◌<◌, refl, sym, ◌&&◌, ◌||◌, List, [], ◌∷◌, map, All, ltb, ◌==◌,
  if◌then◌else◌, pos, Bytes, is_empty, arith, Bool-cases, inl, inr,
}
use vscode_delphi_extension.Model.{TypeId, LocalVar, Symbol, SymbolKind, CompileUnit}
use vscode_delphi_extension.Dwarf.BytesBuf.{uleb128}
use vscode_delphi_extension.Dwarf.Abbrev.{AbbrevCodes, abbrevs}
use vscode_delphi_extension.Dwarf.Info.{InfoCodes, AddressRange, symbol_end, next_address}
use vscode_delphi_extension.Dwarf.Info.Types.{offset_of}
use vscode_delphi_extension.Dwarf.Info.Symbols.{
  emit_param_or_local, emit_vars, emit_head, emit_subprogram, emit_place, emit_variable,
  emit_symbol, emit_symbols,
}
use vscode_delphi_extension.Dwarf.Info.Shown.{
  var_entry, subprogram_entries, variable_entry, symbol_entries, symbols_entries,
}
use vscode_delphi_extension.Dwarf.Reader.{Entry, find_abbrev, read_entry}
use vscode_delphi_extension.Dwarf.Reader.Writes.{Writes}
use vscode_delphi_extension.Dwarf.Reader.Forms.{
  AreInfoCodes, IsText, IsI64, text-Writes, flag-Writes, ref_addr-Writes, addr-Writes,
}
use vscode_delphi_extension.Dwarf.Reader.Locations.{slot-Writes, base-Writes, fixed-Writes}
use vscode_delphi_extension.Dwarf.Reader.Entries.{
  nil-Attributes, cons-Attributes, die-Writes, end-Writes, Entries, Entries-append,
}

-- Names are texts, addresses words of 64 bits, and stack offsets signed ones.
abbrev pub IsVar : LocalVar → Type 0
IsVar v = IsText v.name × IsI64 v.stack_offset

pub record IsSymbol (sym : Symbol) : Type 0 where
  pub name_is : IsText sym.name
  pub address_fits : sym.address < 2 ^ 64
  pub params_are : All IsVar sym.params
  pub locals_are : All IsVar sym.locals

module _ (ac : AbbrevCodes) (c : InfoCodes) (are : AreInfoCodes ac c) (offsets : List (TypeId × ℕ))
    (offsets_fit : (tid : TypeId) → offset_of offsets tid < 2 ^ 32) where
  param-Writes :
      (buf : Bytes) (v : LocalVar)
      → IsVar v
      → Writes Entry
          (read_entry ac c)
          buf
          (var_entry ac offsets ac.tag_formal_parameter v)
          (emit_param_or_local c offsets buf v 9)
  unfolding emit_param_or_local find_abbrev abbrevs
  param-Writes buf v (h, slot) = die-Writes ac c 9 _ buf _ _ (omega arith) refl (
      cons-Attributes ac c ac.at_name ac.form_string _ _ _ _ _ _
        (text-Writes ac c are (uleb128 buf 9) v.name h)
        (cons-Attributes ac c ac.at_type ac.form_ref_addr _ _ _ _ _ _
          (ref_addr-Writes ac c are _ (offset_of offsets v.type) (offsets_fit v.type))
          (cons-Attributes ac c ac.at_location ac.form_exprloc _ _ _ _ _ _
            (slot-Writes ac c are _ v.stack_offset slot) (nil-Attributes ac c _))))

  local-Writes :
      (buf : Bytes) (v : LocalVar)
      → IsVar v
      → Writes Entry
          (read_entry ac c)
          buf
          (var_entry ac offsets ac.tag_variable v)
          (emit_param_or_local c offsets buf v 10)
  unfolding emit_param_or_local find_abbrev abbrevs
  local-Writes buf v (h, slot) = die-Writes ac c 10 _ buf _ _ (omega arith) refl (
      cons-Attributes ac c ac.at_name ac.form_string _ _ _ _ _ _
        (text-Writes ac c are (uleb128 buf 10) v.name h)
        (cons-Attributes ac c ac.at_type ac.form_ref_addr _ _ _ _ _ _
          (ref_addr-Writes ac c are _ (offset_of offsets v.type) (offsets_fit v.type))
          (cons-Attributes ac c ac.at_location ac.form_exprloc _ _ _ _ _ _
            (slot-Writes ac c are _ v.stack_offset slot) (nil-Attributes ac c _))))

  -- The loop over parameters or locals, for the abbreviation of either.
  vars-Entries :
      (tag code : ℕ)
      → ((buf : Bytes) (v : LocalVar)
          → IsVar v
          → Writes Entry
              (read_entry ac c)
              buf
              (var_entry ac offsets tag v)
              (emit_param_or_local c offsets buf v code))
      → (buf : Bytes) (vs : List LocalVar) → All IsVar vs
      → Entries ac c buf (map (var_entry ac offsets tag) vs) (emit_vars c offsets buf vs code)
  unfolding emit_vars
  vars-Entries tag code one buf [] h = refl
  vars-Entries tag code one buf (v ∷ vs) (hv, h) = (
    emit_param_or_local c offsets buf v code,
    one buf v hv,
    vars-Entries tag code one (emit_param_or_local c offsets buf v code) vs h,
  )

  subprogram-Entries :
      (buf : Bytes) (sym : Symbol) (end : ℕ)
      → IsSymbol sym
      → end < 2 ^ 64
      → Entries ac c buf
          (subprogram_entries ac offsets sym end)
          (emit_subprogram c offsets buf sym end)
  unfolding emit_subprogram emit_head find_abbrev abbrevs
  subprogram-Entries buf sym end h fits =
      elim (Bool-cases (is_empty sym.params && is_empty sym.locals)) [
        | inl alone ↦ rw alone (
          _,
          die-Writes ac c 2 _ buf _ _ (omega arith) refl (
              cons-Attributes ac c ac.at_name ac.form_string _ _ _ _ _ _
                (text-Writes ac c are (uleb128 buf 2) sym.name h.name_is)
                (cons-Attributes ac c ac.at_low_pc ac.form_addr _ _ _ _ _ _
                  (addr-Writes ac c are _ sym.address h.address_fits)
                  (cons-Attributes ac c ac.at_high_pc ac.form_addr _ _ _ _ _ _
                    (addr-Writes ac c are _ end fits)
                    (cons-Attributes ac c ac.at_external ac.form_flag _ _ _ _ _ _
                      (flag-Writes ac c are _ 1 (omega arith)) (nil-Attributes ac c _))))),
          refl,
        )
        | inr kids ↦ rw kids (
          _,
          die-Writes ac c 8 _ buf _ _ (omega arith) refl (
              cons-Attributes ac c ac.at_name ac.form_string _ _ _ _ _ _
                (text-Writes ac c are (uleb128 buf 8) sym.name h.name_is)
                (cons-Attributes ac c ac.at_low_pc ac.form_addr _ _ _ _ _ _
                  (addr-Writes ac c are _ sym.address h.address_fits)
                  (cons-Attributes ac c ac.at_high_pc ac.form_addr _ _ _ _ _ _
                    (addr-Writes ac c are _ end fits)
                    (cons-Attributes ac c ac.at_external ac.form_flag _ _ _ _ _ _
                      (flag-Writes ac c are _ 1 (omega arith))
                      (cons-Attributes ac c ac.at_frame_base ac.form_exprloc _ _ _ _ _ _
                        (base-Writes ac c are _ (pos 0) (omega arith)) (nil-Attributes ac c _)))))),
          Entries-append ac c _ _ _ (map (var_entry ac offsets ac.tag_formal_parameter) sym.params)
              _ (vars-Entries ac.tag_formal_parameter 9 param-Writes _ sym.params h.params_are)
              (Entries-append ac c _ _ _ (map (var_entry ac offsets ac.tag_variable) sym.locals) _
                (vars-Entries ac.tag_variable 10 local-Writes _ sym.locals h.locals_are)
                (_, end-Writes ac c _, refl)),
        )
      ]

  variable-Writes :
      (buf : Bytes) (sym : Symbol)
      → IsSymbol sym
      → Writes Entry
          (read_entry ac c)
          buf
          (variable_entry ac offsets sym)
          (emit_variable c offsets buf sym)
  unfolding emit_variable emit_place find_abbrev abbrevs
  variable-Writes buf sym h = elim (Bool-cases (offset_of offsets sym.type == 0)) [
    | inl untyped ↦ rw untyped (
        die-Writes ac c 3 _ buf _ _ (omega arith) refl (
          cons-Attributes ac c ac.at_name ac.form_string _ _ _ _ _ _
            (text-Writes ac c are (uleb128 buf 3) sym.name h.name_is)
            (cons-Attributes ac c ac.at_location ac.form_exprloc _ _ _ _ _ _
              (fixed-Writes ac c are _ sym.address h.address_fits)
              (cons-Attributes ac c ac.at_external ac.form_flag _ _ _ _ _ _
                (flag-Writes ac c are _ 1 (omega arith)) (nil-Attributes ac c _)))))
    | inr typed ↦ rw typed (
        die-Writes ac c 4 _ buf _ _ (omega arith) refl (
          cons-Attributes ac c ac.at_name ac.form_string _ _ _ _ _ _
            (text-Writes ac c are (uleb128 buf 4) sym.name h.name_is)
            (cons-Attributes ac c ac.at_location ac.form_exprloc _ _ _ _ _ _
              (fixed-Writes ac c are _ sym.address h.address_fits)
              (cons-Attributes ac c ac.at_type ac.form_ref_addr _ _ _ _ _ _
                (ref_addr-Writes ac c are _ (offset_of offsets sym.type) (offsets_fit sym.type))
                (cons-Attributes ac c ac.at_external ac.form_flag _ _ _ _ _ _
                  (flag-Writes ac c are _ 1 (omega arith)) (nil-Attributes ac c _))))))
  ]

pub next_address-le :
    (address best : ℕ) (syms : List Symbol) → next_address address best syms ≤ best
unfolding next_address
next_address-le address best [] = omega arith
next_address-le address best (s ∷ syms) =
    grind (arith, next_address-le address best syms, next_address-le address s.address syms)

symbol_end-lt :
    (cu : CompileUnit) (s : Symbol) (high : ℕ) → high < 2 ^ 64 → symbol_end cu s high < 2 ^ 64
unfolding symbol_end
symbol_end-lt cu s high h = ground (arith, next_address-le s.address high cu.symbols)

module _ (ac : AbbrevCodes) (c : InfoCodes) (are : AreInfoCodes ac c) (offsets : List (TypeId × ℕ))
    (offsets_fit : (tid : TypeId) → offset_of offsets tid < 2 ^ 32) (cu : CompileUnit)
    (rng : AddressRange) where
  symbol-Entries :
      (buf : Bytes) (sym : Symbol)
      → IsSymbol sym
      → Entries ac c buf
          (symbol_entries ac cu rng offsets sym)
          (emit_symbol c cu rng offsets buf sym)
  unfolding emit_symbol
  symbol-Entries buf sym h = go sym.kind
    where
      go :
          (k : SymbolKind)
          → Entries ac c buf
              (elim k as (λ x. List Entry) [
                | SymbolKind.function ↦
                    if ltb sym.address rng.lo || ltb rng.hi sym.address
                    then []
                    else subprogram_entries ac offsets sym
                        (symbol_end cu sym ((rng.hi + 1) % 2 ^ 64))
                | SymbolKind.variable ↦ variable_entry ac offsets sym ∷ []
                | SymbolKind.unknown ↦ []
              ])
              (elim k as (λ x. Bytes) [
                | SymbolKind.function ↦
                    if ltb sym.address rng.lo || ltb rng.hi sym.address
                    then buf
                    else emit_subprogram c offsets buf sym
                        (symbol_end cu sym ((rng.hi + 1) % 2 ^ 64))
                | SymbolKind.variable ↦ emit_variable c offsets buf sym
                | SymbolKind.unknown ↦ buf
              ])
      go SymbolKind.function =
          elim (Bool-cases (ltb sym.address rng.lo || ltb rng.hi sym.address)) [
            | inl outside ↦ rw outside refl
            | inr inside ↦ rw inside (
                subprogram-Entries ac c are offsets offsets_fit buf sym
                  (symbol_end cu sym ((rng.hi + 1) % 2 ^ 64)) h
                  (symbol_end-lt cu sym ((rng.hi + 1) % 2 ^ 64) (omega arith)))
          ]
      go SymbolKind.variable = (_, variable-Writes ac c are offsets offsets_fit buf sym h, refl)
      go SymbolKind.unknown = refl

  pub symbols-Entries :
      (buf : Bytes) (syms : List Symbol)
      → All IsSymbol syms
      → Entries ac c buf
          (symbols_entries ac cu rng offsets syms)
          (emit_symbols c cu rng offsets buf syms)
  unfolding emit_symbols
  symbols-Entries buf [] h = refl
  symbols-Entries buf (s ∷ syms) (hs, h) =
      Entries-append ac c buf (emit_symbol c cu rng offsets buf s) _
        (symbol_entries ac cu rng offsets s) (symbols_entries ac cu rng offsets syms)
        (symbol-Entries buf s hs) (symbols-Entries (emit_symbol c cu rng offsets buf s) syms h)
