-- ===== src/Dwarf/Info/UnitWritten.antt =====
-- src/dwarf/dwarf_emitter.cpp: `writeCompileUnit` writes what the unit is.
use vscode_delphi_extension.Base.{
  ℕ, ◌+◌, ◌-◌, ◌%◌, ◌^◌, ◌<◌, ◌≡◌, refl, ap, sym, ◌∙◌, List, [], ◌∷◌, ◌++◌, append_assoc, All, some,
  Bytes, drop, drop-append, length, length-append, find, arith, Returns, Returns-bind, Returns-keep,
  nat_eq,
}
use vscode_delphi_extension.Model.{TypeId, CompileUnit, Module}
use vscode_delphi_extension.Dwarf.BytesBuf.{u8, u16, u32, patch_u32}
use vscode_delphi_extension.Dwarf.BytesBuf.Patch.{patch_u32-append}
use vscode_delphi_extension.Dwarf.Abbrev.{AbbrevCodes}
use vscode_delphi_extension.Dwarf.Info.{InfoCodes, cu_range}
use vscode_delphi_extension.Dwarf.Info.Types.{TypeState, emit_type_dies}
use vscode_delphi_extension.Dwarf.Info.Symbols.{emit_symbols}
use vscode_delphi_extension.Dwarf.Info.Unit.{emit_unit_die, write_compile_unit}
use vscode_delphi_extension.Dwarf.Info.TypesWritten.{
  HasArrays, Entries-Shown, IsShownAt, TypesShown,
}
use vscode_delphi_extension.Dwarf.Info.TypesFound.{HasFound, emit_type_dies-HasFound}
use vscode_delphi_extension.Dwarf.Info.TypesKept.{emit_type_dies-IsKept}
use vscode_delphi_extension.Dwarf.Info.UnitRead.{
  IsUnit, UnitShown, unit-Writes, unit-reads, tail-Entries,
}
use vscode_delphi_extension.Dwarf.Reader.Forms.{AreInfoCodes, IsText}

cancel : (xs ys zs : Bytes) → xs ++ ys ≡ xs ++ zs → ys ≡ zs
cancel xs ys zs e = sym (drop-append xs ys) ∙ ap (drop (length xs)) e ∙ drop-append xs zs

module _ (ac : AbbrevCodes) (c : InfoCodes) (are : AreInfoCodes ac c) where
  -- A type that stood in the unit as it was built stands there once the length is patched.
  patched-IsShownAt :
      (mod_ : Module) (info len hdr head u unit si tail body all out : Bytes)
      (offsets : List (TypeId × ℕ)) (tid off : ℕ)
      → length len ≡ 4
      → head ≡ info ++ (0 ∷ 0 ∷ 0 ∷ 0 ∷ hdr)
      → unit ≡ head ++ u
      → all ≡ si ++ tail
      → all ≡ head ++ body
      → out ≡ info ++ (len ++ (hdr ++ body))
      → IsShownAt ac c are mod_ unit si offsets tid off
      → IsShownAt ac c are mod_ [] out offsets tid off
  patched-IsShownAt mod_ info len hdr head u unit si tail body all out offsets tid off four head_is
        unit_is all_is body_is out_is old =
      let rest = old.shown ++ (old.back ++ tail) in
      let whole : head ++ body ≡ head ++ (u ++ (old.front ++ rest)) =
        sym body_is
        ∙ all_is
        ∙ ap (λ (x : Bytes). x ++ tail)
            (old.split ∙ ap (λ (x : Bytes). x ++ (old.front ++ (old.shown ++ old.back))) unit_is)
        ∙ simp append_assoc in
      let lengths : length unit + length old.front
          ≡ 0 + length (info ++ (len ++ (hdr ++ (u ++ old.front)))) =
        rw (unit_is, head_is)
          (omega (
            arith,
            length-append (info ++ (0 ∷ 0 ∷ 0 ∷ 0 ∷ hdr)) u,
            length-append info (0 ∷ 0 ∷ 0 ∷ 0 ∷ hdr),
            length-append info (len ++ (hdr ++ (u ++ old.front))),
            length-append len (hdr ++ (u ++ old.front)),
            length-append hdr (u ++ old.front),
            length-append u old.front,
          )) in
      record {
        front = info ++ (len ++ (hdr ++ (u ++ old.front)));
        shown = old.shown;
        back = old.back ++ tail;
        entries = old.entries;
        split =
            out_is
            ∙ ap (λ (x : Bytes). info ++ (len ++ (hdr ++ x)))
                (cancel head body (u ++ (old.front ++ rest)) whole)
            ∙ simp append_assoc;
        place = old.place ∙ ap (λ (n : ℕ). n % 2 ^ 32) lengths;
        reads = old.reads;
        describes = old.describes;
      }

  -- The header, with room for the length.
  abbrev open_unit : Bytes → ℕ → Bytes
  open_unit info table = u32 (u8 (u8 (u16 (info ++ (0 ∷ 0 ∷ 0 ∷ 0 ∷ [])) 5) c.ut_compile) 8) table

  abbrev header : ℕ → Bytes
  header table = 5 ∷ 0 ∷ c.ut_compile ∷ 8 ∷ u32 [] table

  open_unit-header :
      (info : Bytes) (table : ℕ) → open_unit info table ≡ info ++ (0 ∷ 0 ∷ 0 ∷ 0 ∷ header table)
  open_unit-header info table =
      let unit_fits = are.unit_fits in
      let byte : c.ut_compile % 256 ≡ c.ut_compile = omega arith in rw byte (simp append_assoc)

  -- The last step: the length is stored in the room for it.
  patched-UnitShown :
      (mod_ : Module) (info : Bytes) (cu : CompileUnit) (producer : Bytes) (stmt_list table : ℕ)
      (s : TypeState)
      → IsUnit mod_ cu
      → IsText producer
      → stmt_list < 2 ^ 32
      → TypesShown ac c are mod_ (emit_unit_die c (open_unit info table) cu producer stmt_list) s
      → All (HasFound mod_ s.type_offsets) cu.symbols
      → (let all = u8 (emit_symbols c cu (cu_range cu) s.type_offsets s.info cu.symbols) 0 in
          Returns (UnitShown ac c are mod_ info cu producer stmt_list table) (
            patch_u32 all
              (length info)
              ((length all - length (info ++ (0 ∷ 0 ∷ 0 ∷ 0 ∷ []))) % 2 ^ 32)))
  patched-UnitShown mod_ info cu producer stmt_list table s is text_is fits t found_all =
      let all = u8 (emit_symbols c cu (cu_range cu) s.type_offsets s.info cu.symbols) 0 in
      let head = open_unit info table in
      let w = unit-reads ac c are mod_ head cu producer stmt_list s is text_is fits t in
      let body = w.added in
      let head_is = open_unit-header info table in
      let all_is : all ≡ info ++ (0 ∷ 0 ∷ 0 ∷ 0 ∷ (header table ++ body)) =
        w.appended ∙ ap (λ (x : Bytes). x ++ body) head_is ∙ simp append_assoc in
      let len = (length body + 8) % 2 ^ 32 in
      let len_is : (length all - length (info ++ (0 ∷ 0 ∷ 0 ∷ 0 ∷ []))) % 2 ^ 32 ≡ len =
        ap (λ (n : ℕ). n % 2 ^ 32)
          (rw all_is (
            omega (
              arith,
              length-append info (0 ∷ 0 ∷ 0 ∷ 0 ∷ []),
              length-append info (0 ∷ 0 ∷ 0 ∷ 0 ∷ (header table ++ body)),
              length-append (header table) body,
            ))) in
      let out = info ++ (u32 [] len ++ (header table ++ body)) in
      let patched : patch_u32 all (length info) len ≡ some out =
        ap (λ (x : Bytes). patch_u32 x (length info) len) all_is
        ∙ patch_u32-append info 0 0 0 0 (header table ++ body) len in
      let u = unit-Writes ac c are mod_ head cu producer stmt_list is text_is fits in
      let behind =
        Entries-Shown ac c are s.info all _ (tail-Entries ac c are mod_ cu _ s is.symbols_are t) in
      rw (len_is, patched)
        (record {
          offsets = s.type_offsets;
          types = t.entries;
          body = body;
          wrote = refl;
          reads = w.decodes;
          listed = t.listed;
          shows = λ tid off found.
              patched-IsShownAt mod_ info (u32 [] len) (header table) head u.added
                (emit_unit_die c head cu producer stmt_list) s.info behind.shown body all out
                s.type_offsets tid off refl head_is u.appended behind.extends w.appended refl
                (t.shows tid off found);
          complete = found_all;
        })

  -- What is written for a unit whose names are texts without zero bytes, whose addresses fit 64
  -- bits, whose stack offsets fit signed 64 bits, and whose types are types of the module (with
  -- array lengths below 2 ^ 64) stands behind the section as it was: the length of what follows,
  -- modulo 2 ^ 32, the header, and bytes that the reader, whatever is behind them, takes as the
  -- entry of the unit, the entries of its types and those of its symbols, each with its
  -- attributes, and the end of the unit. No assertion of the writer fails; each base type and
  -- each array type that a symbol of the unit has, also through its parameters and locals, has a
  -- recorded offset; the entries of the types are those of the recorded types, in order and no more;
  -- and at each recorded offset the entry of its type is read. The entry of an array names the
  -- offset that is recorded for its element type, or 0 where the element type has no entry; only an
  -- array that is itself the element of an array may have 0 for an element type that has one.
  pub write_compile_unit-UnitShown :
      (mod_ : Module) (info : Bytes) (cu : CompileUnit) (producer : Bytes) (stmt_list table : ℕ)
      → IsUnit mod_ cu
      → HasArrays mod_
      → IsText producer
      → stmt_list < 2 ^ 32
      → Returns
          (UnitShown ac c are mod_ info cu producer stmt_list table)
          (write_compile_unit c info mod_ cu producer stmt_list table)
  unfolding write_compile_unit find
  write_compile_unit-UnitShown mod_ info cu producer stmt_list table is has text_is fits =
      let unit = emit_unit_die c (open_unit info table) cu producer stmt_list in
      let start : TypeState = record { info = unit; type_offsets = [] } in
      let write_rest = λ (s : TypeState).
        (let all = u8 (emit_symbols c cu (cu_range cu) s.type_offsets s.info cu.symbols) 0 in
          patch_u32 all (length info)
            ((length all - length (info ++ (0 ∷ 0 ∷ 0 ∷ 0 ∷ []))) % 2 ^ 32)) in
      Returns-bind _ (UnitShown ac c are mod_ info cu producer stmt_list table)
        (emit_type_dies c mod_ cu start) write_rest
        (Returns-keep (TypesShown ac c are mod_ unit)
          (λ s. TypesShown ac c are mod_ unit s × All (HasFound mod_ s.type_offsets) cu.symbols)
          (emit_type_dies c mod_ cu start)
          (emit_type_dies-IsKept ac c are mod_ unit has cu start is.types_are (record {
            entries = [];
            wrote = refl;
            listed = refl;
            level = λ d. refl;
            shows = λ tid off e. absurd (ground arith);
          }))
          (λ s e t. (t, emit_type_dies-HasFound c mod_ cu start s e)))
        (λ s (t, found).
          patched-UnitShown mod_ info cu producer stmt_list table s is text_is fits t found)
