-- ===== src/Model.antt =====
-- src/model/model.h and model.cpp: what the readers and the writers exchange, and the table of
-- types of a module.
pub mod Table
use vscode_delphi_extension.Base.{
  ℕ, zero, suc, ◌+◌, ◌%◌, ◌^◌, Option, none, some, List, [], ◌∷◌, ◌++◌, ℤ, Bytes, length, get_elem?,
  leb, if◌then◌else◌, ◌==◌, ◌||◌, not, ◌-◌,
}

pub data PrimitiveKind : Type 0 where
  bool char wchar int8 int16 int32 int64 uint8 uint16 uint32 uint64 : PrimitiveKind
  float32 float64 float80 pchar pwchar : PrimitiveKind

abbrev pub TypeId : Type 0
TypeId = ℕ

abbrev pub no_type : TypeId
no_type = 0

pub record RecordField : Type 0 where
  pub name : Bytes
  pub type : TypeId
  pub byte_offset : ℕ

pub record EnumEntry : Type 0 where
  pub name : Bytes
  pub value : ℤ

-- The variant of `Type`.
pub data TypeKind : Type 0 where
  primitive_type : PrimitiveKind → TypeKind
  pointer_type : TypeId → TypeKind
  array_type : TypeId → ℕ → TypeKind
  record_type : Bytes → ℕ → List RecordField → TypeKind
  enum_type : Bytes → TypeId → List EnumEntry → TypeKind

pub record LineEntry : Type 0 where
  pub address : ℕ
  pub file_id : ℕ
  pub line : ℕ

pub data SymbolKind : Type 0 where
  unknown function variable : SymbolKind

pub record LocalVar : Type 0 where
  pub name : Bytes
  pub type : TypeId
  pub stack_offset : ℤ

pub record Symbol : Type 0 where
  pub name : Bytes
  pub address : ℕ
  pub size : ℕ
  pub type : TypeId
  pub kind : SymbolKind
  pub params : List LocalVar
  pub locals : List LocalVar

pub record CompileUnit : Type 0 where
  pub source_path : Bytes
  pub symbols : List Symbol
  pub lines : List LineEntry

pub record Module : Type 0 where
  pub units : List CompileUnit
  pub source_files : List Bytes
  pub types : List TypeKind

-- The new module, and the id: the size of the table as a uint32_t.
unfoldable pub add_type : Module → TypeKind → Module × TypeId
add_type m t =
    let types = m.types ++ (t ∷ []) in (record m { types = types }, length types % 2 ^ 32)

-- `none` is a failed assertion.
unfoldable pub get_type : Module → TypeId → Option TypeKind
get_type m id =
    if not (id == no_type)
    then (if leb id (length m.types) then get_elem? m.types (id - 1) else none)
    else none
