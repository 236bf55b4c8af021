-- ===== src/Dwarf/LineProgram.antt =====
-- src/dwarf/dwarf_sections.cpp, `writeLineProgram`. The DWARF codes come from LLVM's headers and
-- `std::sort` leaves the order of equal elements open, so both are parameters. `none` is a patch
-- outside the buffer.
pub mod Consumer
pub mod Rows
pub mod Program
pub mod Unit
use vscode_delphi_extension.Base.{
  ℕ, zero, suc, ◌+◌, ◌-◌, ◌%◌, ◌^◌, Bool, true, false, not, ◌||◌, Option, none, some, List, [], ◌∷◌,
  ◌++◌, ◌==◌, if◌then◌else◌, ◌>>=◌, ℤ, pos, ◌-ℤ◌, eqb_ℤ, Bytes, length, take, drop,
}
use vscode_delphi_extension.Model.{LineEntry, CompileUnit}
use vscode_delphi_extension.Dwarf.BytesBuf.{
  push, u8, u16, u64, uleb128, sleb128, cstr, reserved_u32, patch_u32,
}

-- The codes of DWARF that the writer uses.
pub record LineCodes : Type 0 where
  pub lns_copy : ℕ
  pub lns_advance_pc : ℕ
  pub lns_advance_line : ℕ
  pub lns_set_file : ℕ
  pub lne_end_sequence : ℕ
  pub lne_set_address : ℕ
  pub lnct_path : ℕ
  pub lnct_directory_index : ℕ
  pub form_string : ℕ
  pub form_data1 : ℕ

pub record PathSplit : Type 0 where
  pub dir : Bytes
  pub file : Bytes

-- `find_last_of("\\/")`: the index of the last separator.
unfoldable pub last_separator : Bytes → Option ℕ
last_separator [] = none
last_separator (c ∷ cs) = elim (last_separator cs) [
  | some i ↦ some (i + 1)
  | none ↦ if c == b'\\' || c == b'/' then some 0 else none
]

unfoldable pub split_path : Bytes → PathSplit
unfolding last_separator
split_path path = elim (last_separator path) [
  | none ↦ record { dir = []; file = path }
  | some slash ↦ record { dir = take slash path; file = drop (slash + 1) path }
]

pub record LineState : Type 0 where
  pub buf : Bytes
  pub state_address : ℕ
  pub state_line : ℕ
  pub have_initial_addr : Bool

unfoldable pub emit_set_address : LineCodes → LineState → ℕ → LineState
emit_set_address c s addr =
    let prefix = u8 (uleb128 (u8 s.buf 0) (1 + 8)) c.lne_set_address in
    record s { buf = u64 prefix addr; state_address = addr; have_initial_addr = true }

unfoldable pub emit_advance_line : LineCodes → LineState → ℤ → LineState
emit_advance_line c s delta =
    if eqb_ℤ delta (pos 0)
    then s
    else record s { buf = sleb128 (u8 s.buf c.lns_advance_line) delta }

unfoldable pub emit_advance_pc : LineCodes → LineState → ℕ → LineState
emit_advance_pc c s delta =
    if delta == 0 then s else record s { buf = uleb128 (u8 s.buf c.lns_advance_pc) delta }

unfoldable pub emit_copy : LineCodes → LineState → LineState
emit_copy c s = record s { buf = u8 s.buf c.lns_copy }

-- The first half of the loop body. The difference of two uint64_t wraps.
unfoldable pub move_address : LineCodes → LineState → LineEntry → LineState
unfolding emit_set_address emit_advance_pc
move_address c s le =
    if not s.have_initial_addr
    then emit_set_address c s le.address
    else if not (le.address == s.state_address)
    then record (emit_advance_pc c s ((le.address + 2 ^ 64 - s.state_address) % 2 ^ 64)) {
      state_address = le.address;
    }
    else s

-- The second half.
unfoldable pub move_line : LineCodes → LineState → LineEntry → LineState
unfolding emit_advance_line
move_line c s le =
    if not (le.line % 2 ^ 32 == s.state_line)
    then record (emit_advance_line c s (pos le.line -ℤ pos s.state_line)) { state_line = le.line }
    else s

unfoldable pub emit_row : LineCodes → LineState → LineEntry → LineState
unfolding emit_copy
emit_row c s le = emit_copy c (move_line c (move_address c s le) le)

unfoldable pub emit_rows : LineCodes → LineState → List LineEntry → LineState
emit_rows c s [] = s
emit_rows c s (le ∷ les) = emit_rows c (emit_row c s le) les

abbrev std_op_lens : Bytes
std_op_lens = 0 ∷ 1 ∷ 1 ∷ 1 ∷ 1 ∷ 0 ∷ 0 ∷ 0 ∷ 1 ∷ 0 ∷ 0 ∷ 1 ∷ []

unfoldable pub u8s : Bytes → Bytes → Bytes
u8s buf [] = buf
u8s buf (v ∷ vs) = u8s (u8 buf v) vs

-- Between the placeholder of header_length and its patch.
unfoldable pub write_header : LineCodes → PathSplit → Bytes → Bytes
unfolding u8s
write_header c split line =
    let machine = u8s line (1 ∷ 1 ∷ 1 ∷ 251 ∷ 14 ∷ 13 ∷ []) in
    let lens = u8s machine std_op_lens in
    let dir_format = uleb128 (uleb128 (u8 lens 1) c.lnct_path) c.form_string in
    let dirs = cstr (uleb128 dir_format 1) split.dir in
    let path_format = uleb128 (uleb128 (u8 dirs 2) c.lnct_path) c.form_string in
    let file_format = uleb128 (uleb128 path_format c.lnct_directory_index) c.form_data1 in
    u8 (cstr (uleb128 file_format 1) split.file) 0

-- Between the two patches.
unfoldable pub write_program : LineCodes → List LineEntry → Bytes → Bytes
write_program c sorted line =
    let start : LineState = record {
      buf = uleb128 (u8 line c.lns_set_file) 0;
      state_address = 0;
      state_line = 1;
      have_initial_addr = false;
    } in
    u8 (uleb128 (u8 (emit_rows c start sorted).buf 0) 1) c.lne_end_sequence

-- The new buffer, and the offset of the program in it.
unfoldable pub write_line_program :
    LineCodes → (List LineEntry → List LineEntry) → Bytes → CompileUnit → Option (Bytes × ℕ)
write_line_program c sort line cu =
    let program_start_offset = length line % 2 ^ 32 in
    let split = split_path cu.source_path in
    let (line1, unit_length_pos) = reserved_u32 line in
    let length_field_end = length line1 in
    let (line2, header_length_pos) = reserved_u32 (u8 (u8 (u16 line1 5) 8) 0) in
    let header_length_start = length line2 in
    let line3 = write_header c split line2 in
    (do
      line4 ← patch_u32 line3 header_length_pos ((length line3 - header_length_start) % 2 ^ 32)
      let line5 = write_program c (sort cu.lines) line4
      line6 ← patch_u32 line5 unit_length_pos ((length line5 - length_field_end) % 2 ^ 32)
      some (line6, program_start_offset))
