-- ===== src/Rsm/Types.antt =====
-- src/rsm/rsm_reader.h: the records that the reader produces. Names are lists of bytes, and an
-- empty `pascal_type` is the empty list.
use vscode_delphi_extension.Base.{ℕ, Bool, List, Bytes, ℤ}
use vscode_delphi_extension.Model.{PrimitiveKind}

pub record Primitive : Type 0 where
  pub name : Bytes
  pub kind : PrimitiveKind
  pub byte_size : ℕ
  pub raw_type_id : ℕ
  pub file_offset : ℕ

pub record Variable : Type 0 where
  pub name : Bytes
  pub address : ℕ
  pub stack_offset : ℤ
  pub inline_type_id : ℕ
  pub trailer_type_id : ℕ
  pub type_marker : ℕ
  pub is_primitive : Bool
  pub has_trailer : Bool
  pub file_offset : ℕ
  pub pascal_type : Bytes
  pub unit_anchor_offset : ℕ

pub record ProcedureRecord : Type 0 where
  pub name : Bytes
  pub address : ℕ
  pub params : List Variable
  pub locals : List Variable
  pub file_offset : ℕ
  pub file_offset_end : ℕ
  pub has_static_link : Bool

pub record Header : Type 0 where
  pub magic : ℕ
  pub metadata_start : ℕ
  pub unit_count : ℕ
  pub version_minor : ℕ
  pub timestamp : ℕ
  pub flags : ℕ
  pub legacy_imagebase : ℕ
  pub reserved_1c : ℕ
  pub exe_path : Bytes

pub record UnitTypeEntry : Type 0 where
  pub name : Bytes
  pub hash4 : ℕ
