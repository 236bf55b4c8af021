-- ===== src/Dwarf/Info/UnitRead.antt =====
-- src/dwarf/dwarf_emitter.cpp: a whole unit reads back.
use vscode_delphi_extension.Base.{
  ℕ, zero, suc, ◌+◌, ◌%◌, ◌^◌, ◌<◌, ◌≡◌, refl, sym, true, List, [], ◌∷◌, ◌++◌, append_assoc, All,
  some, ◌==◌, Bytes, take, drop, length, length-append, find, arith, Option-cases, inl, inr, nat_eq,
  subst,
}
use vscode_delphi_extension.Model.{TypeId, CompileUnit, Module}
use vscode_delphi_extension.Dwarf.BytesBuf.{u8, u32, uleb128}
use vscode_delphi_extension.Dwarf.Abbrev.{AbbrevCodes, abbrevs}
use vscode_delphi_extension.Dwarf.LineProgram.{last_separator, split_path}
use vscode_delphi_extension.Dwarf.Info.{InfoCodes, cu_range}
use vscode_delphi_extension.Dwarf.Info.Types.{TypeState}
use vscode_delphi_extension.Dwarf.Info.Symbols.{emit_symbols}
use vscode_delphi_extension.Dwarf.Info.Unit.{emit_unit_die}
use vscode_delphi_extension.Dwarf.Info.Shown.{symbols_entries}
use vscode_delphi_extension.Dwarf.Info.Written.{IsSymbol, symbols-Entries}
use vscode_delphi_extension.Dwarf.Info.TypesWritten.{IsShownAt, Listed, TypesShown}
use vscode_delphi_extension.Dwarf.Info.TypesFound.{HasFound}
use vscode_delphi_extension.Dwarf.Info.TypesKept.{HasTypes}
use vscode_delphi_extension.Dwarf.Info.TypesAdded.{offset_of-lt}
use vscode_delphi_extension.Dwarf.Info.Levels.{symbols-Leads, cu_range-fits}
use vscode_delphi_extension.Dwarf.Reader.{
  Entry, end_of_children, die, number, text, find_abbrev, read_entry, depth_behind, read_unit,
}
use vscode_delphi_extension.Dwarf.Reader.Writes.{Writes}
use vscode_delphi_extension.Dwarf.Reader.Forms.{
  AreInfoCodes, IsText, text-Writes, data2-Writes, addr-Writes, sec_offset-Writes,
}
use vscode_delphi_extension.Dwarf.Reader.Entries.{
  nil-Attributes, cons-Attributes, die-Writes, end-Writes, Entries, Entries-append, Leads,
  Leads-append, read_unit-Entries,
}

-- What a unit must be like to be written as what it is.
pub record IsUnit (mod_ : Module) (cu : CompileUnit) : Type 0 where
  pub path_is : IsText cu.source_path
  pub lines_fit : All (λ le. le.address < 2 ^ 64) cu.lines
  pub symbols_are : All IsSymbol cu.symbols
  pub types_are : All (HasTypes mod_) cu.symbols

take-IsText : (n : ℕ) (s : Bytes) → IsText s → IsText (take n s)
take-IsText zero s h = tt
take-IsText (suc n) [] h = tt
take-IsText (suc n) (b ∷ s) (hb, h) = (hb, take-IsText n s h)

drop-IsText : (n : ℕ) (s : Bytes) → IsText s → IsText (drop n s)
drop-IsText zero s h = h
drop-IsText (suc n) [] h = tt
drop-IsText (suc n) (b ∷ s) (hb, h) = drop-IsText n s h

split_path-IsText :
    (path : Bytes) → IsText path → IsText (split_path path).dir × IsText (split_path path).file
unfolding split_path
split_path-IsText path h = elim (Option-cases (last_separator path)) [
  | inl e ↦ rw (e, split_path) (tt, h)
  | inr (slash, e) ↦ rw (e, split_path) (take-IsText slash path h, drop-IsText (slash + 1) path h)
]

module _ (ac : AbbrevCodes) (c : InfoCodes) where
  -- The entry of the unit itself.
  abbrev pub unit_entry : CompileUnit → Bytes → ℕ → Entry
  unit_entry cu producer stmt_list_offset = die ac.tag_compile_unit ac.children_yes (
      (ac.at_producer, text producer)
      ∷ (ac.at_language, number c.lang_pascal83)
      ∷ (ac.at_name, text (split_path cu.source_path).file)
      ∷ (ac.at_comp_dir, text (split_path cu.source_path).dir)
      ∷ (ac.at_low_pc, number (cu_range cu).lo)
      ∷ (ac.at_high_pc, number (((cu_range cu).hi + 1) % 2 ^ 64))
      ∷ (ac.at_stmt_list, number stmt_list_offset)
      ∷ [])

  module _ (are : AreInfoCodes ac c) where
    pub unit-Writes :
        (mod_ : Module) (buf : Bytes) (cu : CompileUnit) (producer : Bytes) (stmt_list_offset : ℕ)
        → IsUnit mod_ cu
        → IsText producer
        → stmt_list_offset < 2 ^ 32
        → Writes Entry
            (read_entry ac c)
            buf
            (unit_entry cu producer stmt_list_offset)
            (emit_unit_die c buf cu producer stmt_list_offset)
    unfolding emit_unit_die find_abbrev abbrevs
    unit-Writes mod_ buf cu producer stmt_list_offset is text_is fits =
        let (dir_is, file_is) = split_path-IsText cu.source_path is.path_is in
        let (lo_fits, hi_fits) = cu_range-fits cu is.lines_fit is.symbols_are in
        let unit_fits = are.unit_fits in
        die-Writes ac c 1 _ buf _ _ (omega arith) refl (
          cons-Attributes ac c ac.at_producer ac.form_string _ _ _ _ _ _
            (text-Writes ac c are (uleb128 buf 1) producer text_is)
            (cons-Attributes ac c ac.at_language ac.form_data2 _ _ _ _ _ _
              (data2-Writes ac c are _ c.lang_pascal83 (omega arith))
              (cons-Attributes ac c ac.at_name ac.form_string _ _ _ _ _ _
                (text-Writes ac c are _ (split_path cu.source_path).file file_is)
                (cons-Attributes ac c ac.at_comp_dir ac.form_string _ _ _ _ _ _
                  (text-Writes ac c are _ (split_path cu.source_path).dir dir_is)
                  (cons-Attributes ac c ac.at_low_pc ac.form_addr _ _ _ _ _ _
                    (addr-Writes ac c are _ (cu_range cu).lo lo_fits)
                    (cons-Attributes ac c ac.at_high_pc ac.form_addr _ _ _ _ _ _
                      (addr-Writes ac c are _ (((cu_range cu).hi + 1) % 2 ^ 64) (omega arith))
                      (cons-Attributes ac c ac.at_stmt_list ac.form_sec_offset _ _ _ _ _ _
                        (sec_offset-Writes ac c are _ stmt_list_offset fits)
                        (nil-Attributes ac c _))))))))

    -- The unit behind what the section held: its length, its header, and the entries that the
    -- reader finds. The entries of the types are those of the recorded types, each recorded offset is
    -- where its type's entries begin, and each type of a symbol that has an entry has an offset.
    pub record UnitShown (mod_ : Module) (info : Bytes) (cu : CompileUnit) (producer : Bytes)
        (stmt_list table : ℕ) (out : Bytes) : Type 0 where
      pub offsets : List (TypeId × ℕ)
      pub types : List Entry
      pub body : Bytes
      pub wrote :
          out
          ≡ info
            ++ (u32 [] ((length body + 8) % 2 ^ 32)
                ++ (5 ∷ 0 ∷ c.ut_compile ∷ 8 ∷ (u32 [] table ++ body)))
      pub reads :
          (rest : Bytes)
          → (let entries =
                unit_entry cu producer stmt_list
                ∷ (types
                    ++ (symbols_entries ac cu (cu_range cu) offsets cu.symbols
                        ++ (end_of_children ∷ []))) in
              read_unit (length entries) ac c 0 (body ++ rest) ≡ some (entries, rest))
      pub listed : Listed ac c are mod_ offsets offsets types
      pub shows :
          (tid off : ℕ)
          → find tid offsets ≡ some off
          → IsShownAt ac c are mod_ [] out offsets tid off
      pub complete : All (HasFound mod_ offsets) cu.symbols

    -- The entries behind the types.
    pub tail-Entries :
        (mod_ : Module) (cu : CompileUnit) (buf : Bytes) (s : TypeState)
        → All IsSymbol cu.symbols
        → TypesShown ac c are mod_ buf s
        → Entries ac c s.info
            (symbols_entries ac cu (cu_range cu) s.type_offsets cu.symbols
              ++ (end_of_children ∷ []))
            (u8 (emit_symbols c cu (cu_range cu) s.type_offsets s.info cu.symbols) 0)
    tail-Entries mod_ cu buf s symbols t =
        Entries-append ac c _ _ _ (symbols_entries ac cu (cu_range cu) s.type_offsets cu.symbols) _
          (symbols-Entries ac c are s.type_offsets (offset_of-lt ac c are mod_ buf s t) cu
            (cu_range cu) s.info cu.symbols symbols)
          (_, end-Writes ac c _, refl)

    -- The reader takes all that is behind the header.
    pub unit-reads :
        (mod_ : Module) (head : Bytes) (cu : CompileUnit) (producer : Bytes) (stmt_list : ℕ)
        (s : TypeState)
        → IsUnit mod_ cu
        → IsText producer
        → stmt_list < 2 ^ 32
        → (t : TypesShown ac c are mod_ (emit_unit_die c head cu producer stmt_list) s)
        → (let entries =
              unit_entry cu producer stmt_list
              ∷ (t.entries
                  ++ (symbols_entries ac cu (cu_range cu) s.type_offsets cu.symbols
                      ++ (end_of_children ∷ []))) in
            Writes
              (List Entry)
              (read_unit (length entries) ac c 0)
              head
              entries
              (u8 (emit_symbols c cu (cu_range cu) s.type_offsets s.info cu.symbols) 0))
    unfolding depth_behind
    unit-reads mod_ head cu producer stmt_list s is text_is fits t =
        let syms = symbols_entries ac cu (cu_range cu) s.type_offsets cu.symbols in
        let unit = unit_entry cu producer stmt_list in
        let es = unit ∷ (t.entries ++ syms) in
        let all = u8 (emit_symbols c cu (cu_range cu) s.type_offsets s.info cu.symbols) 0 in
        let behind = t.entries ++ (syms ++ (end_of_children ∷ [])) in
        let yes_is_yes : (ac.children_yes == ac.children_yes) ≡ true = ground arith in
        let level : Leads ac c 0 es 1 = rw yes_is_yes (
          omega arith,
          Leads-append ac c 1 1 1 t.entries syms (t.level 0)
              (symbols-Leads ac c are.children_differ s.type_offsets cu (cu_range cu) cu.symbols 0),
        ) in
        let ws : Entries ac c head (unit ∷ behind) all = (
          emit_unit_die c head cu producer stmt_list,
          unit-Writes mod_ head cu producer stmt_list is text_is fits,
          Entries-append ac c _ s.info _ t.entries _ t.wrote
              (tail-Entries mod_ cu _ s is.symbols_are t),
        ) in
        let same : (t.entries ++ syms) ++ (end_of_children ∷ []) ≡ behind =
          append_assoc t.entries syms (end_of_children ∷ []) in
        subst
          (λ (b : List Entry).
            Writes (List Entry) (read_unit (length (unit ∷ b)) ac c 0) head (unit ∷ b) all)
          same
          (read_unit-Entries ac c (length (es ++ (end_of_children ∷ []))) 0 es head all
            (omega (arith, length-append es (end_of_children ∷ []))) level
            (subst (λ (b : List Entry). Entries ac c head (unit ∷ b) all) (sym same) ws))
