-- ===== src/Dwarf/Info/Levels.antt =====
-- The entries of symbols leave the reader at the depth where they begin, and the range of a unit
-- fits its words.
use vscode_delphi_extension.Base.{
  ℕ, suc, ◌+◌, ◌%◌, ◌^◌, ◌<◌, ◌≡◌, ◌≢◌, refl, true, ◌&&◌, ◌||◌, List, [], ◌∷◌, map, All, Option,
  none, some, ltb, ◌==◌, if◌then◌else◌, is_empty, arith, Bool-cases, inl, inr,
}
use vscode_delphi_extension.Model.{TypeId, LineEntry, LocalVar, Symbol, SymbolKind, CompileUnit}
use vscode_delphi_extension.Dwarf.Abbrev.{AbbrevCodes}
use vscode_delphi_extension.Dwarf.Info.{
  InfoCodes, AddressRange, absorb, absorb_lines, absorb_symbols, cu_range, symbol_end,
}
use vscode_delphi_extension.Dwarf.Info.Written.{IsSymbol}
use vscode_delphi_extension.Dwarf.Info.Shown.{
  var_entry, subprogram_entries, variable_entry, symbol_entries, symbols_entries,
}
use vscode_delphi_extension.Dwarf.Reader.{Entry, depth_behind}
use vscode_delphi_extension.Dwarf.Reader.Entries.{Leads, Leads-append}

module _ (ac : AbbrevCodes) (c : InfoCodes) (differ : ac.children_no ≢ ac.children_yes)
    (offsets : List (TypeId × ℕ)) where
  vars-Leads :
      (tag d : ℕ) (vs : List LocalVar)
      → Leads ac c (suc d) (map (var_entry ac offsets tag) vs) (suc d)
  unfolding depth_behind
  vars-Leads tag d [] = refl
  vars-Leads tag d (v ∷ vs) = ground (arith, vars-Leads tag d vs)

  subprogram-Leads :
      (sym : Symbol) (end d : ℕ)
      → Leads ac c (suc d) (subprogram_entries ac offsets sym end) (suc d)
  unfolding depth_behind
  subprogram-Leads sym end d = elim (Bool-cases (is_empty sym.params && is_empty sym.locals)) [
    | inl alone ↦ rw alone (ground arith)
    | inr kids ↦
        rw (kids, yes_is_yes, up)
          (
            omega arith,
            Leads-append ac c (suc (suc d)) (suc (suc d)) (suc d)
                (map (var_entry ac offsets ac.tag_formal_parameter) sym.params) _
                (vars-Leads ac.tag_formal_parameter (suc d) sym.params)
                (Leads-append ac c (suc (suc d)) (suc (suc d)) (suc d)
                  (map (var_entry ac offsets ac.tag_variable) sym.locals) _
                  (vars-Leads ac.tag_variable (suc d) sym.locals) (omega arith, omega arith)),
          )
  ]
    where
      yes_is_yes : (ac.children_yes == ac.children_yes) ≡ true
      yes_is_yes = ground arith

      up : suc d + 1 ≡ suc (suc d)
      up = omega arith

  symbol-Leads :
      (cu : CompileUnit) (rng : AddressRange) (sym : Symbol) (d : ℕ)
      → Leads ac c (suc d) (symbol_entries ac cu rng offsets sym) (suc d)
  unfolding depth_behind
  symbol-Leads cu rng sym d = go sym.kind
    where
      go :
          (k : SymbolKind)
          → Leads ac c
              (suc d)
              (elim k as (λ x. List Entry) [
                | SymbolKind.function ↦
                    if ltb sym.address rng.lo || ltb rng.hi sym.address
                    then []
                    else subprogram_entries ac offsets sym
                        (symbol_end cu sym ((rng.hi + 1) % 2 ^ 64))
                | SymbolKind.variable ↦ variable_entry ac offsets sym ∷ []
                | SymbolKind.unknown ↦ []
              ])
              (suc d)
      go SymbolKind.function =
          elim (Bool-cases (ltb sym.address rng.lo || ltb rng.hi sym.address)) [
            | inl outside ↦ rw outside refl
            | inr inside ↦
                rw inside (subprogram-Leads sym (symbol_end cu sym ((rng.hi + 1) % 2 ^ 64)) d)
          ]
      go SymbolKind.variable = ground arith
      go SymbolKind.unknown = refl

  pub symbols-Leads :
      (cu : CompileUnit) (rng : AddressRange) (syms : List Symbol) (d : ℕ)
      → Leads ac c (suc d) (symbols_entries ac cu rng offsets syms) (suc d)
  symbols-Leads cu rng [] d = refl
  symbols-Leads cu rng (s ∷ syms) d =
      Leads-append ac c (suc d) (suc d) (suc d) (symbol_entries ac cu rng offsets s)
        (symbols_entries ac cu rng offsets syms) (symbol-Leads cu rng s d)
        (symbols-Leads cu rng syms d)

abbrev FitsRange : Option AddressRange → Type 0
FitsRange none = Unit
FitsRange (some r) = (r.lo < 2 ^ 64) × (r.hi < 2 ^ 64)

absorb-FitsRange :
    (r : Option AddressRange) (a : ℕ) → a < 2 ^ 64 → FitsRange r → FitsRange (absorb r a)
unfolding absorb
absorb-FitsRange none a fits h = elim (Bool-cases (a == 0)) [
  | inl e ↦ rw e tt
  | inr e ↦ rw e (omega arith)
]
absorb-FitsRange (some r) a fits h = elim (Bool-cases (a == 0)) [
  | inl e ↦ rw e h
  | inr e ↦ rw e (ground arith)
]

absorb_lines-FitsRange :
    (r : Option AddressRange) (les : List LineEntry)
    → All (λ le. le.address < 2 ^ 64) les
    → FitsRange r
    → FitsRange (absorb_lines r les)
unfolding absorb_lines
absorb_lines-FitsRange r [] fits h = h
absorb_lines-FitsRange r (le ∷ les) (fit, fits) h =
    absorb_lines-FitsRange (absorb r le.address) les fits (absorb-FitsRange r le.address fit h)

absorb_symbols-FitsRange :
    (syms : List Symbol) (r : Option AddressRange)
    → All IsSymbol syms
    → FitsRange r
    → FitsRange (absorb_symbols r syms)
unfolding absorb_symbols
absorb_symbols-FitsRange [] r are h = h
absorb_symbols-FitsRange (y ∷ syms) r (is, are) h = absorb_symbols-FitsRange syms _ are (one y.kind)
  where
    one :
        (k : SymbolKind)
        → FitsRange (elim k as (λ x. Option AddressRange) [
          | SymbolKind.function ↦ absorb r y.address
          | _ ↦ r
        ])
    one SymbolKind.function = absorb-FitsRange r y.address is.address_fits h
    one SymbolKind.variable = h
    one SymbolKind.unknown = h

pub cu_range-fits :
    (cu : CompileUnit)
    → All (λ le. le.address < 2 ^ 64) cu.lines
    → All IsSymbol cu.symbols
    → ((cu_range cu).lo < 2 ^ 64) × ((cu_range cu).hi < 2 ^ 64)
unfolding cu_range
cu_range-fits cu lines symbols = go (absorb_symbols (absorb_lines none cu.lines) cu.symbols) (
    absorb_symbols-FitsRange cu.symbols (absorb_lines none cu.lines) symbols
      (absorb_lines-FitsRange none cu.lines lines tt))
  where
    go :
        (r : Option AddressRange)
        → FitsRange r
        → ((elim r as (λ x. AddressRange) [ none ↦ record { lo = 0; hi = 0 } | some x ↦ x ]).lo
            < 2 ^ 64)
          × ((elim r as (λ x. AddressRange) [ none ↦ record { lo = 0; hi = 0 } | some x ↦ x ]).hi
              < 2 ^ 64)
    go none h = omega arith
    go (some r) h = h
