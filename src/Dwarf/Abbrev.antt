-- ===== src/Dwarf/Abbrev.antt =====
-- src/dwarf/dwarf_sections.cpp, `writeAbbrevTable`, and the abbreviation codes of
-- src/dwarf/dwarf_internal.h. The names of DWARF come from LLVM's headers and are a parameter.
pub mod Reader
use vscode_delphi_extension.Base.{ℕ, List, [], ◌∷◌, Bytes}
use vscode_delphi_extension.Dwarf.BytesBuf.{u8, uleb128}

-- The tags, attributes and forms that the writer uses.
pub record AbbrevCodes : Type 0 where
  pub tag_compile_unit : ℕ
  pub tag_subprogram : ℕ
  pub tag_variable : ℕ
  pub tag_base_type : ℕ
  pub tag_array_type : ℕ
  pub tag_subrange_type : ℕ
  pub tag_formal_parameter : ℕ
  pub at_producer : ℕ
  pub at_language : ℕ
  pub at_name : ℕ
  pub at_comp_dir : ℕ
  pub at_low_pc : ℕ
  pub at_high_pc : ℕ
  pub at_stmt_list : ℕ
  pub at_external : ℕ
  pub at_location : ℕ
  pub at_type : ℕ
  pub at_byte_size : ℕ
  pub at_encoding : ℕ
  pub at_upper_bound : ℕ
  pub at_frame_base : ℕ
  pub form_string : ℕ
  pub form_data1 : ℕ
  pub form_data2 : ℕ
  pub form_addr : ℕ
  pub form_sec_offset : ℕ
  pub form_flag : ℕ
  pub form_exprloc : ℕ
  pub form_ref_addr : ℕ
  pub form_udata : ℕ
  pub children_no : ℕ
  pub children_yes : ℕ

abbrev pub abbrev_cu : ℕ
abbrev_cu = 1

abbrev pub abbrev_subprogram : ℕ
abbrev_subprogram = 2

abbrev pub abbrev_variable : ℕ
abbrev_variable = 3

abbrev pub abbrev_typed_variable : ℕ
abbrev_typed_variable = 4

abbrev pub abbrev_base_type : ℕ
abbrev_base_type = 5

abbrev pub abbrev_array_type : ℕ
abbrev_array_type = 6

abbrev pub abbrev_subrange_type : ℕ
abbrev_subrange_type = 7

abbrev pub abbrev_subprogram_with_kids : ℕ
abbrev_subprogram_with_kids = 8

abbrev pub abbrev_formal_parameter : ℕ
abbrev_formal_parameter = 9

abbrev pub abbrev_local_variable : ℕ
abbrev_local_variable = 10

-- One abbreviation: its code, its tag, whether it has children, its attributes with their forms.
pub record Abbrev : Type 0 where
  pub code : ℕ
  pub tag : ℕ
  pub children : ℕ
  pub attributes : List (ℕ × ℕ)

-- The calls that each block of the function makes on the buffer.
unfoldable pub write_attributes : Bytes → List (ℕ × ℕ) → Bytes
write_attributes buf [] = uleb128 (uleb128 buf 0) 0
write_attributes buf ((name, form) ∷ pairs) =
    write_attributes (uleb128 (uleb128 buf name) form) pairs

unfoldable pub write_abbrev : Bytes → Abbrev → Bytes
unfolding write_attributes
write_abbrev buf a =
    write_attributes (u8 (uleb128 (uleb128 buf a.code) a.tag) a.children) a.attributes

unfoldable pub write_abbrevs : Bytes → List Abbrev → Bytes
unfolding write_abbrev
write_abbrevs buf [] = uleb128 buf 0
write_abbrevs buf (a ∷ rest) = write_abbrevs (write_abbrev buf a) rest

-- The blocks in their order.
unfoldable pub abbrevs : AbbrevCodes → List Abbrev
abbrevs c =
    (record {
      code = abbrev_cu;
      tag = c.tag_compile_unit;
      children = c.children_yes;
      attributes =
          (c.at_producer, c.form_string)
          ∷ (c.at_language, c.form_data2)
          ∷ (c.at_name, c.form_string)
          ∷ (c.at_comp_dir, c.form_string)
          ∷ (c.at_low_pc, c.form_addr)
          ∷ (c.at_high_pc, c.form_addr)
          ∷ (c.at_stmt_list, c.form_sec_offset)
          ∷ [];
    })
    ∷ (record {
      code = abbrev_subprogram;
      tag = c.tag_subprogram;
      children = c.children_no;
      attributes =
          (c.at_name, c.form_string)
          ∷ (c.at_low_pc, c.form_addr)
          ∷ (c.at_high_pc, c.form_addr)
          ∷ (c.at_external, c.form_flag)
          ∷ [];
    })
    ∷ (record {
      code = abbrev_variable;
      tag = c.tag_variable;
      children = c.children_no;
      attributes =
          (c.at_name, c.form_string)
          ∷ (c.at_location, c.form_exprloc)
          ∷ (c.at_external, c.form_flag)
          ∷ [];
    })
    ∷ (record {
      code = abbrev_typed_variable;
      tag = c.tag_variable;
      children = c.children_no;
      attributes =
          (c.at_name, c.form_string)
          ∷ (c.at_location, c.form_exprloc)
          ∷ (c.at_type, c.form_ref_addr)
          ∷ (c.at_external, c.form_flag)
          ∷ [];
    })
    ∷ (record {
      code = abbrev_base_type;
      tag = c.tag_base_type;
      children = c.children_no;
      attributes =
          (c.at_name, c.form_string)
          ∷ (c.at_byte_size, c.form_data1)
          ∷ (c.at_encoding, c.form_data1)
          ∷ [];
    })
    ∷ (record {
      code = abbrev_array_type;
      tag = c.tag_array_type;
      children = c.children_yes;
      attributes = (c.at_type, c.form_ref_addr) ∷ [];
    })
    ∷ (record {
      code = abbrev_subrange_type;
      tag = c.tag_subrange_type;
      children = c.children_no;
      attributes = (c.at_upper_bound, c.form_udata) ∷ [];
    })
    ∷ (record {
      code = abbrev_subprogram_with_kids;
      tag = c.tag_subprogram;
      children = c.children_yes;
      attributes =
          (c.at_name, c.form_string)
          ∷ (c.at_low_pc, c.form_addr)
          ∷ (c.at_high_pc, c.form_addr)
          ∷ (c.at_external, c.form_flag)
          ∷ (c.at_frame_base, c.form_exprloc)
          ∷ [];
    })
    ∷ (record {
      code = abbrev_formal_parameter;
      tag = c.tag_formal_parameter;
      children = c.children_no;
      attributes =
          (c.at_name, c.form_string)
          ∷ (c.at_type, c.form_ref_addr)
          ∷ (c.at_location, c.form_exprloc)
          ∷ [];
    })
    ∷ (record {
      code = abbrev_local_variable;
      tag = c.tag_variable;
      children = c.children_no;
      attributes =
          (c.at_name, c.form_string)
          ∷ (c.at_type, c.form_ref_addr)
          ∷ (c.at_location, c.form_exprloc)
          ∷ [];
    })
    ∷ []

pub write_abbrev_table : AbbrevCodes → Bytes → Bytes
unfolding write_abbrevs abbrevs
write_abbrev_table c buf = write_abbrevs buf (abbrevs c)
