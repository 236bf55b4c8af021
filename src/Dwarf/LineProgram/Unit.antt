-- ===== src/Dwarf/LineProgram/Unit.antt =====
-- One unit of the line section: its two length fields, the header and the program.
use vscode_delphi_extension.Base.{
  ℕ, zero, suc, ◌+◌, ◌-◌, ◌/◌, ◌%◌, ◌^◌, ◌≡◌, refl, sym, ◌∙◌, ap, some, List, [], ◌∷◌, ◌++◌,
  append_assoc, append-nil, map, ◌==◌, Bool-cases, inl, inr, Bytes, length, length-append, arith,
}
use vscode_delphi_extension.Model.{LineEntry, CompileUnit}
use vscode_delphi_extension.Dwarf.BytesBuf.{push, u8, u16, u32, cstr, uleb_loop, uleb128}
use vscode_delphi_extension.Dwarf.BytesBuf.Patch.{patch_u32-append}
use vscode_delphi_extension.Dwarf.LineProgram.{
  LineCodes, PathSplit, split_path, u8s, std_op_lens, write_header, write_line_program,
}
use vscode_delphi_extension.Dwarf.LineProgram.Consumer.{AreLineCodes, Runs, initial}
use vscode_delphi_extension.Dwarf.LineProgram.Program.{Ascending, Fit, row_of, write_program-Runs}

-- What the writer appends does not depend on the buffer.
abbrev Extends : (Bytes → Bytes) → Type 0
Extends f = (buf : Bytes) → f buf ≡ buf ++ f []

Extends-then : (f g : Bytes → Bytes) → Extends f → Extends g → Extends (λ buf. g (f buf))
Extends-then f g extends_f extends_g buf =
    extends_g (f buf)
    ∙ ap (λ (x : Bytes). x ++ g []) (extends_f buf)
    ∙ append_assoc buf (f []) (g [])
    ∙ ap (λ (x : Bytes). buf ++ x) (sym (extends_g (f [])))

Extends-uleb_loop : (fuel v : ℕ) → Extends (λ buf. uleb_loop fuel buf v)
unfolding uleb_loop
Extends-uleb_loop zero v buf = sym (append-nil buf)
Extends-uleb_loop (suc fuel) v buf = elim (Bool-cases (v / 2 ^ 7 == 0)) [
  | inl last ↦ rw last refl
  | inr more ↦ rw more (
      Extends-then (λ b. push b _) (λ b. uleb_loop fuel b (v / 2 ^ 7)) (λ b. refl)
        (Extends-uleb_loop fuel (v / 2 ^ 7)) buf)
]

Extends-uleb128 : (v : ℕ) → Extends (λ buf. uleb128 buf v)
unfolding uleb128
Extends-uleb128 v = Extends-uleb_loop 10 v

Extends-u8s : (vs : Bytes) → Extends (λ buf. u8s buf vs)
unfolding u8s
Extends-u8s [] buf = sym (append-nil buf)
Extends-u8s (v ∷ vs) buf =
    Extends-then (λ b. u8 b v) (λ b. u8s b vs) (λ b. refl) (Extends-u8s vs) buf

Extends-cstr : (s : Bytes) → Extends (λ buf. cstr buf s)
Extends-cstr s buf = append_assoc buf s (0 ∷ [])

-- A fixed part of a record: one byte count, then pairs of codes, then a string.
Extends-header : (c : LineCodes) (split : PathSplit) → Extends (write_header c split)
unfolding write_header
Extends-header c split =
    Extends-then _ (λ b. u8 b 0)
      (Extends-then _ (λ b. cstr b split.file)
        (Extends-then _ (λ b. uleb128 b 1)
          (Extends-then _ (λ b. uleb128 b c.form_data1)
            (Extends-then _ (λ b. uleb128 b c.lnct_directory_index)
              (Extends-then _ (λ b. uleb128 b c.form_string)
                (Extends-then _ (λ b. uleb128 b c.lnct_path)
                  (Extends-then _ (λ b. u8 b 2)
                    (Extends-then _ (λ b. cstr b split.dir)
                      (Extends-then _ (λ b. uleb128 b 1)
                        (Extends-then _ (λ b. uleb128 b c.form_string)
                          (Extends-then _ (λ b. uleb128 b c.lnct_path)
                            (Extends-then _ (λ b. u8 b 1)
                              (Extends-then _ (λ b. u8s b std_op_lens)
                                (Extends-u8s (1 ∷ 1 ∷ 1 ∷ 251 ∷ 14 ∷ 13 ∷ []))
                                (Extends-u8s std_op_lens))
                              (λ b. refl))
                            (Extends-uleb128 c.lnct_path))
                          (Extends-uleb128 c.form_string))
                        (Extends-uleb128 1))
                      (Extends-cstr split.dir))
                    (λ b. refl))
                  (Extends-uleb128 c.lnct_path))
                (Extends-uleb128 c.form_string))
              (Extends-uleb128 c.lnct_directory_index))
            (Extends-uleb128 c.form_data1))
          (Extends-uleb128 1))
        (Extends-cstr split.file))
      (λ b. refl)

-- The two length fields are patched to the lengths of what follows them, the bytes before the unit
-- stay, and the program makes a reader add the rows of the sorted entries and end the sequence; it
-- needs that sorting puts the addresses in ascending order, 64-bit addresses and 32-bit lines.
pub write_line_program-Runs :
    (c : LineCodes) (sort : List LineEntry → List LineEntry) (line : Bytes) (cu : CompileUnit)
    → AreLineCodes c
    → Ascending (sort cu.lines)
    → Fit (sort cu.lines)
    → (program : Bytes) × (let header = write_header c (split_path cu.source_path) [] in
        let behind = header ++ program in
        write_line_program c sort line cu
        ≡ some (
          line
              ++ (u32 [] ((length behind + 8) % 2 ^ 32)
                  ++ (5 ∷ 0 ∷ 8 ∷ 0 ∷ (u32 [] (length header % 2 ^ 32) ++ behind))),
          length line % 2 ^ 32,
        ))
      × Runs c initial program (map row_of (sort cu.lines))
unfolding write_line_program
write_line_program-Runs c sort line cu are up fit =
    let split = split_path cu.source_path in
    let header = write_header c split [] in
    let before = line ++ (0 ∷ 0 ∷ 0 ∷ 0 ∷ 5 ∷ 0 ∷ 8 ∷ 0 ∷ []) in
    let header_length = length header % 2 ^ 32 in
    let line4 = before ++ (u32 [] header_length ++ header) in
    let (program, wrote, runs) = write_program-Runs c are (sort cu.lines) line4 up fit in
    let behind = header ++ program in
    let before_eq : u8 (u8 (u16 (line ++ (0 ∷ 0 ∷ 0 ∷ 0 ∷ [])) 5) 8) 0 ≡ before =
      simp append_assoc in
    let line3_eq : write_header c split (before ++ (0 ∷ 0 ∷ 0 ∷ 0 ∷ []))
        ≡ before ++ (0 ∷ 0 ∷ 0 ∷ 0 ∷ header) =
      Extends-header c split (before ++ (0 ∷ 0 ∷ 0 ∷ 0 ∷ []))
      ∙ append_assoc before (0 ∷ 0 ∷ 0 ∷ 0 ∷ []) header in
    let header_length_eq : length (before ++ (0 ∷ 0 ∷ 0 ∷ 0 ∷ header))
          - length (before ++ (0 ∷ 0 ∷ 0 ∷ 0 ∷ []))
        ≡ length header =
      omega (
        arith,
        length-append before (0 ∷ 0 ∷ 0 ∷ 0 ∷ header),
        length-append before (0 ∷ 0 ∷ 0 ∷ 0 ∷ []),
      ) in
    let line5_eq : line4 ++ program
        ≡ line ++ (0 ∷ 0 ∷ 0 ∷ 0 ∷ 5 ∷ 0 ∷ 8 ∷ 0 ∷ (u32 [] header_length ++ behind)) =
      simp append_assoc in
    let unit_length_eq : length
            (line ++ (0 ∷ 0 ∷ 0 ∷ 0 ∷ 5 ∷ 0 ∷ 8 ∷ 0 ∷ (u32 [] header_length ++ behind)))
          - length (line ++ (0 ∷ 0 ∷ 0 ∷ 0 ∷ []))
        ≡ length behind + 8 =
      omega (
        arith,
        length-append line (0 ∷ 0 ∷ 0 ∷ 0 ∷ 5 ∷ 0 ∷ 8 ∷ 0 ∷ (u32 [] header_length ++ behind)),
        length-append line (0 ∷ 0 ∷ 0 ∷ 0 ∷ []),
      ) in
    (
      program,
      rw
          (
            before_eq,
            line3_eq,
            header_length_eq,
            patch_u32-append before 0 0 0 0 header header_length,
            wrote,
            line5_eq,
            unit_length_eq,
            patch_u32-append line 0 0 0 0 (5 ∷ 0 ∷ 8 ∷ 0 ∷ (u32 [] header_length ++ behind))
                ((length behind + 8) % 2 ^ 32),
          )
          refl,
      runs,
    )
