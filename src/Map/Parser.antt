-- ===== src/Map/Parser.antt =====
-- src/map/map_reader.cpp, `Reader::parse`: the state machine over the lines of a map file. The
-- time measurements that an environment variable turns on are left out.
pub mod Rows
pub mod Title
pub mod Tables
pub mod Sections
use vscode_delphi_extension.Base.{
  ℕ, zero, suc, ◌+◌, ◌-◌, ◌^◌, Bool, true, false, not, ◌&&◌, ◌||◌, Option, none, some, List, [],
  ◌∷◌, ◌++◌, ◌==◌, ltb, leb, if◌then◌else◌, ◌>>=◌, Bytes, is_empty, codes, length, drop, take,
  beq_bytes,
}
use vscode_delphi_extension.Map.Types.{
  Segment, ModuleInSegment, Public, LineRecord, LineTable, EntryPoint, MapFile, no_table, no_file,
}
use vscode_delphi_extension.Map.Text.{
  starts_with, find_char, rfind_char, contains, rfind, rstrip, lstrip, strip, is_ws, skip_ws, word,
  tokenize, split_lines, chop_cr,
}
use vscode_delphi_extension.Map.Numbers.{parse_seg_offset, parse_hex, parse_dec32, strtoul}

pub data State : Type 0 where
  initial segments detailed_map publics_by_name publics_by_value line_numbers resources entry_point
        done :
      State

-- The variables of `parse`, and the member that it fills.
pub record Parser : Type 0 where
  pub state : State
  pub current_table : LineTable
  pub file : MapFile

unfoldable pub flush_line_table : Parser → Parser
flush_line_table p =
    if is_empty p.current_table.lines then record p { current_table = no_table } else record p {
      current_table = no_table;
      file = record (p.file) { line_tables = p.file.line_tables ++ p.current_table ∷ [] };
    }

abbrev enter : Parser → State → Parser
enter p s = record (flush_line_table p) { state = s }

-- "Line numbers for <module>(<source>) segment <name>", behind the first three words.
unfoldable pub table_names : Bytes → Option LineTable
unfolding find_char rfind_char rfind
table_names rest = do
  lparen ← find_char b'(' rest
  rparen ← rfind_char b')' rest
  seg_kw ← rfind (codes " segment ") rest
  (if ltb lparen rparen && ltb rparen seg_kw
      then some (record {
        module_name = take lparen rest;
        source_path = take (rparen - lparen - 1) (drop (lparen + 1) rest);
        segment_name = drop (seg_kw + 9) rest;
        lines = [];
      })
      else none)

unfoldable pub line_numbers_header : Parser → Bytes → Parser
unfolding table_names
line_numbers_header p rest = record (flush_line_table p) {
  state = State.line_numbers;
  current_table = elim (table_names rest) [ some t ↦ t | none ↦ no_table ];
}

unfoldable pub entry_point_header : Parser → Bytes → Parser
entry_point_header p rest = elim (parse_seg_offset rest) [
  | some (seg, off) ↦ record p {
    state = State.entry_point;
    file = record (p.file) {
      entry_point = record { has_value = true; segment_id = seg; segment_offset = off };
    };
  }
  | none ↦ record p { state = State.entry_point }
]

-- The `switch` on the first character; `none` leaves `is_header` false.
unfoldable pub header : Parser → Bytes → Option Parser
unfolding starts_with contains
header p [] = none
header p (c0 ∷ cs) =
    let s = c0 ∷ cs in
    if c0 == b'S'
    then (if starts_with s (codes "Start") && contains s (codes "Length")
        then some (enter p State.segments)
        else none)
    else if c0 == b'D'
    then (if starts_with s (codes "Detailed map of segments")
        then some (enter p State.detailed_map)
        else none)
    else if c0 == b'A'
    then (if starts_with s (codes "Address")
        then (if contains s (codes "Publics by Name")
            then some (enter p State.publics_by_name)
            else if contains s (codes "Publics by Value")
            then some (enter p State.publics_by_value)
            else none)
        else none)
    else if c0 == b'B'
    then (if starts_with s (codes "Bound resource files")
        then some (enter p State.resources)
        else none)
    else if c0 == b'L'
    then (if starts_with s (codes "Line numbers for ")
        then some (line_numbers_header p (drop 17 s))
        else none)
    else if c0 == b'P'
    then (if starts_with s (codes "Program entry point at ")
        then some (entry_point_header p (drop 23 s))
        else none)
    else none

-- The row of each section. A row that does not parse is dropped.
unfoldable pub segment_row : List Bytes → Option Segment
segment_row (t0 ∷ t1 ∷ t2 ∷ t3 ∷ ts) = do
  (id, start_va) ← parse_seg_offset t0
  some (record { id = id; start_va = start_va; length = parse_hex t1; name = t2; klass = t3 })
segment_row _ = none

-- An unsigned long has 32 bits in the compiler that the build files name.
unfoldable pub attribute : ModuleInSegment → Bytes → ModuleInSegment
unfolding find_char
attribute mis t = elim (find_char b'=' t) [
  | none ↦ mis
  | some eq ↦
      let k = take eq t in
      let v = drop (eq + 1) t in
      if beq_bytes k (codes "C")
      then record mis { klass = v }
      else if beq_bytes k (codes "S")
      then record mis { section = v }
      else if beq_bytes k (codes "G")
      then record mis { group = v }
      else if beq_bytes k (codes "M")
      then record mis { module_name = v }
      else if beq_bytes k (codes "ALIGN")
      then record mis { alignment = strtoul (2 ^ 32) v }
      else mis
]

unfoldable pub attributes : ModuleInSegment → List Bytes → ModuleInSegment
attributes mis [] = mis
attributes mis (t ∷ ts) = attributes (attribute mis t) ts

unfoldable pub module_row : List Bytes → Option ModuleInSegment
unfolding attributes
module_row (t0 ∷ t1 ∷ t2 ∷ t3 ∷ t4 ∷ t5 ∷ ts) = do
  (id, offset) ← parse_seg_offset t0
  let mis : ModuleInSegment = record {
    segment_id = id;
    segment_offset = offset;
    length = parse_hex t1;
    klass = [];
    section = [];
    group = [];
    module_name = [];
    alignment = 0;
  }
  some (attributes mis (t2 ∷ t3 ∷ t4 ∷ t5 ∷ ts))
module_row _ = none

-- The name is the rest of the row without the spaces around it.
unfoldable pub trim_end : Bytes → Bytes
trim_end [] = []
trim_end (c ∷ s) = let rest = trim_end s in if is_empty rest && is_ws c then [] else c ∷ rest

unfoldable pub public_row : Bytes → Option Public
unfolding skip_ws word trim_end
public_row line = do
  let (t_addr, rest) = word (skip_ws line)
  (segment, offset) ← parse_seg_offset t_addr
  let name = trim_end (skip_ws rest)
  (if is_empty name
      then none
      else some (record { segment_id = segment; segment_offset = offset; name = name }))

-- The loop takes two words a round; a last word alone is dropped.
unfoldable pub line_records : List Bytes → List LineRecord
line_records (t_line ∷ t_addr ∷ ts) =
    let rest = line_records ts in
    elim (parse_seg_offset t_addr) [
      | some (segment, offset) ↦
          (record { line = parse_dec32 t_line; segment_id = segment; segment_offset = offset })
          ∷ rest
      | none ↦ rest
    ]
line_records _ = []

unfoldable pub push_segment : Parser → Option Segment → Parser
push_segment p none = p
push_segment p (some s) = record p {
  file = record (p.file) { segments = p.file.segments ++ s ∷ [] };
}

unfoldable pub push_module : Parser → Option ModuleInSegment → Parser
push_module p none = p
push_module p (some m) = record p {
  file = record (p.file) { module_segments = p.file.module_segments ++ m ∷ [] };
}

unfoldable pub push_public : Parser → Option Public → Parser
push_public p none = p
push_public p (some s) = record p { file = record (p.file) { publics = p.file.publics ++ s ∷ [] } }

-- The `switch` on the state.
unfoldable pub row : State → Parser → Bytes → Parser
unfolding segment_row module_row public_row line_records push_segment push_module push_public
row State.segments p line = push_segment p (segment_row (tokenize line))
row State.detailed_map p line = push_module p (module_row (tokenize line))
row State.publics_by_name p line = push_public p (public_row line)
row State.line_numbers p line = record p {
  current_table = record (p.current_table) {
    lines = p.current_table.lines ++ line_records (tokenize line);
  };
}
row State.publics_by_value p line = p
row State.resources p line = p
row State.initial p line = p
row State.entry_point p line = p
row State.done p line = p

-- The body of the main loop behind the removal of the carriage return.
unfoldable pub on_line : Parser → Bytes → Parser
unfolding rstrip lstrip strip
on_line p line = elim (header p (rstrip (lstrip line))) [
  | some p' ↦ p'
  | none ↦ if is_empty (strip line) then p else row p.state p line
]

-- The body on a line without its newline.
unfoldable pub parse_line : Parser → Bytes → Parser
unfolding chop_cr on_line
parse_line p cut = on_line p (chop_cr cut)

unfoldable pub parse_lines : Parser → List Bytes → Parser
parse_lines p [] = p
parse_lines p (l ∷ ls) = parse_lines (parse_line p l) ls

abbrev pub start : Parser
start = record { state = State.initial; current_table = no_table; file = no_file }

-- `parse` returns true always; this is the file that it leaves.
unfoldable pub parse : Bytes → MapFile
unfolding parse_lines split_lines flush_line_table
parse text = (flush_line_table (parse_lines start (split_lines text))).file
