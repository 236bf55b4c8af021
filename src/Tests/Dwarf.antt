-- ===== src/Tests/Dwarf.antt =====
-- src/dwarf on small values, and on a line table of three entries.
use vscode_delphi_extension.Base.{
  ℕ, ◌+◌, ◌%◌, ◌^◌, ◌≡◌, some, List, [], ◌∷◌, ◌++◌, map, length, ℤ, negsuc, Bytes, codes, arith,
}
use vscode_delphi_extension.Model.{LineEntry, CompileUnit}
use vscode_delphi_extension.Dwarf.BytesBuf.{u32, uleb128, sleb128, patch_u32}
use vscode_delphi_extension.Dwarf.BytesBuf.Appends.{Appends}
use vscode_delphi_extension.Dwarf.BytesBuf.Uleb.{decode_uleb, uleb128-Appends}
use vscode_delphi_extension.Dwarf.BytesBuf.Sleb.{decode_sleb, sleb128-Appends}
use vscode_delphi_extension.Dwarf.BytesBuf.Patch.{patch_u32-append}
use vscode_delphi_extension.Dwarf.Abbrev.{Abbrev, AbbrevCodes, abbrevs, write_abbrev_table}
use vscode_delphi_extension.Dwarf.Abbrev.Reader.{
  Reads, read_abbrevs, AreAbbrevCodes, write_abbrev_table-Reads,
}
use vscode_delphi_extension.Dwarf.LineProgram.{
  LineCodes, split_path, write_header, write_line_program,
}
use vscode_delphi_extension.Dwarf.LineProgram.Consumer.{AreLineCodes, Runs, initial}
use vscode_delphi_extension.Dwarf.LineProgram.Program.{
  Ascending, ascending_one, ascending_cons, Fit, fit_nil, fit_cons, row_of,
}
use vscode_delphi_extension.Dwarf.LineProgram.Unit.{write_line_program-Runs}

uleb128-Appends_example : Appends ℕ decode_uleb (7 ∷ []) 624485 (uleb128 (7 ∷ []) 624485) 10
uleb128-Appends_example = uleb128-Appends (7 ∷ []) 624485 (omega arith)

sleb128-Appends_example :
    Appends ℤ decode_sleb (7 ∷ []) (negsuc 123455) (sleb128 (7 ∷ []) (negsuc 123455)) 10
sleb128-Appends_example = sleb128-Appends (7 ∷ []) (negsuc 123455) (omega arith) (omega arith)

patch_u32-append_example :
    patch_u32 (1 ∷ 0 ∷ 0 ∷ 0 ∷ 0 ∷ 9 ∷ []) 1 0x01020304 ≡ some (1 ∷ 4 ∷ 3 ∷ 2 ∷ 1 ∷ 9 ∷ [])
patch_u32-append_example = patch_u32-append (1 ∷ []) 0 0 0 0 (9 ∷ []) 0x01020304

-- The codes of the standard.
abbrev pub codes_of_dwarf : LineCodes
codes_of_dwarf = record {
  lns_copy = 1;
  lns_advance_pc = 2;
  lns_advance_line = 3;
  lns_set_file = 4;
  lne_end_sequence = 1;
  lne_set_address = 2;
  lnct_path = 1;
  lnct_directory_index = 2;
  form_string = 8;
  form_data1 = 11;
}

pub codes_of_dwarf-AreLineCodes : AreLineCodes codes_of_dwarf
codes_of_dwarf-AreLineCodes = record {
  standard = omega arith;
  distinct = ground arith;
  extended = ground arith;
}

abbrev entries : List LineEntry
entries =
    (record { address = 0x401000; file_id = 0; line = 12 })
    ∷ (record { address = 0x401005; file_id = 0; line = 10 })
    ∷ (record { address = 0x401005; file_id = 0; line = 300 })
    ∷ []

abbrev unit : CompileUnit
unit = record { source_path = codes "C:\\src\\Unit1.pas"; symbols = []; lines = entries }

entries-Ascending : Ascending entries
entries-Ascending = ascending_cons (omega arith) (ascending_cons (omega arith) ascending_one)

entries-Fit : Fit entries
entries-Fit =
    fit_cons (omega arith) (omega arith)
      (fit_cons (omega arith) (omega arith) (fit_cons (omega arith) (omega arith) fit_nil))

write_line_program-Runs_example :
    (program : Bytes) × (let header =
        write_header codes_of_dwarf (split_path unit.source_path) [] in
      let behind = header ++ program in
      write_line_program codes_of_dwarf (λ les. les) (1 ∷ 2 ∷ []) unit
      ≡ some (
        1
            ∷ 2
            ∷ (u32 [] ((length behind + 8) % 2 ^ 32)
                ++ (5 ∷ 0 ∷ 8 ∷ 0 ∷ (u32 [] (length header % 2 ^ 32) ++ behind))),
        2,
      ))
    × Runs codes_of_dwarf initial program (map row_of entries)
write_line_program-Runs_example =
    write_line_program-Runs codes_of_dwarf (λ les. les) (1 ∷ 2 ∷ []) unit
      codes_of_dwarf-AreLineCodes entries-Ascending entries-Fit

-- The tags, attributes and forms of the standard.
abbrev pub names_of_dwarf : AbbrevCodes
names_of_dwarf = record {
  tag_compile_unit = 0x11;
  tag_subprogram = 0x2E;
  tag_variable = 0x34;
  tag_base_type = 0x24;
  tag_array_type = 0x01;
  tag_subrange_type = 0x21;
  tag_formal_parameter = 0x05;
  at_producer = 0x25;
  at_language = 0x13;
  at_name = 0x03;
  at_comp_dir = 0x1B;
  at_low_pc = 0x11;
  at_high_pc = 0x12;
  at_stmt_list = 0x10;
  at_external = 0x3F;
  at_location = 0x02;
  at_type = 0x49;
  at_byte_size = 0x0B;
  at_encoding = 0x3E;
  at_upper_bound = 0x2F;
  at_frame_base = 0x40;
  form_string = 0x08;
  form_data1 = 0x0B;
  form_data2 = 0x05;
  form_addr = 0x01;
  form_sec_offset = 0x17;
  form_flag = 0x0C;
  form_exprloc = 0x18;
  form_ref_addr = 0x10;
  form_udata = 0x0F;
  children_no = 0;
  children_yes = 1;
}

pub names_of_dwarf-AreAbbrevCodes : AreAbbrevCodes names_of_dwarf
names_of_dwarf-AreAbbrevCodes = record {
  tags = omega arith;
  attributes = omega arith;
  forms = omega arith;
  children = omega arith;
}

write_abbrev_table-Reads_example :
    Reads
      (List Abbrev)
      read_abbrevs
      (7 ∷ [])
      (abbrevs names_of_dwarf)
      (write_abbrev_table names_of_dwarf (7 ∷ []))
      44
write_abbrev_table-Reads_example =
    write_abbrev_table-Reads names_of_dwarf (7 ∷ []) names_of_dwarf-AreAbbrevCodes
