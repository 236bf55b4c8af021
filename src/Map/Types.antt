-- ===== src/Map/Types.antt =====
-- src/map/map_reader.h: the parsed view of a map file.
use vscode_delphi_extension.Base.{
  ℕ, Bool, false, List, [], ◌∷◌, Option, none, some, ◌==◌, if◌then◌else◌, Bytes,
}

pub record Segment : Type 0 where
  pub id : ℕ
  pub start_va : ℕ
  pub length : ℕ
  pub name : Bytes
  pub klass : Bytes

pub record ModuleInSegment : Type 0 where
  pub segment_id : ℕ
  pub segment_offset : ℕ
  pub length : ℕ
  pub klass : Bytes
  pub section : Bytes
  pub group : Bytes
  pub module_name : Bytes
  pub alignment : ℕ

pub record Public : Type 0 where
  pub segment_id : ℕ
  pub segment_offset : ℕ
  pub name : Bytes

pub record LineRecord : Type 0 where
  pub line : ℕ
  pub segment_id : ℕ
  pub segment_offset : ℕ

pub record LineTable : Type 0 where
  pub module_name : Bytes
  pub source_path : Bytes
  pub segment_name : Bytes
  pub lines : List LineRecord

pub record EntryPoint : Type 0 where
  pub has_value : Bool
  pub segment_id : ℕ
  pub segment_offset : ℕ

pub record MapFile : Type 0 where
  pub segments : List Segment
  pub module_segments : List ModuleInSegment
  pub publics : List Public
  pub line_tables : List LineTable
  pub entry_point : EntryPoint

-- `LineTable{}`, and a `MapFile` as it is before parsing.
abbrev pub no_table : LineTable
no_table = record { module_name = []; source_path = []; segment_name = []; lines = [] }

abbrev pub no_file : MapFile
no_file = record {
  segments = [];
  module_segments = [];
  publics = [];
  line_tables = [];
  entry_point = record { has_value = false; segment_id = 0; segment_offset = 0 };
}

find_segment_in : List Segment → ℕ → Option Segment
find_segment_in [] id = none
find_segment_in (s ∷ ss) id = if s.id == id then some s else find_segment_in ss id

-- `MapFile::findSegment`; `none` is the null pointer.
unfoldable pub find_segment : MapFile → ℕ → Option Segment
unfolding find_segment_in
find_segment mf id = find_segment_in mf.segments id
