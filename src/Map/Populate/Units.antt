-- ===== src/Map/Populate/Units.antt =====
-- The units that `populate` adds.
use vscode_delphi_extension.Base.{
  ℕ, ◌%◌, ◌^◌, get_elem?, ◌≡◌, some, List, [], ◌∷◌, ◌++◌, Bytes, nat_eq, list_eq,
}
use vscode_delphi_extension.Model.{CompileUnit, Module}
use vscode_delphi_extension.Map.Types.{LineTable, Public, MapFile}
use vscode_delphi_extension.Map.Populate.{
  bucket_publics, Groups, group_tables, line_entries, symbols,
}
use vscode_delphi_extension.Map.Populate.Buckets.{publics_of, module_names, tables_of}

-- The unit of a module: under the path of its first table, with the lines of all its tables and the
-- symbols of the publics that belong to it, in the order of the file. The lines are in the source
-- file that has this path.
pub record IsUnitOf (mf : MapFile) (files : List Bytes) (m : Bytes) (cu : CompileUnit)
    : Type 0 where
  pub index : ℕ
  pub first : LineTable
  pub rest : List LineTable
  pub tables : tables_of m mf.line_tables ≡ first ∷ rest
  pub path : cu.source_path ≡ first.source_path
  pub file : get_elem? files index ≡ some first.source_path
  pub lines : cu.lines ≡ line_entries mf (index % 2 ^ 32) (first ∷ rest)
  pub symbols_are : cu.symbols ≡ symbols mf m (publics_of (module_names mf) m mf.publics)

abbrev pub AreUnitsOf : MapFile → List Bytes → List Bytes → List CompileUnit → Type 0
AreUnitsOf mf files [] [] = Unit
AreUnitsOf mf files (m ∷ ms) (cu ∷ cus) = IsUnitOf mf files m cu × AreUnitsOf mf files ms cus
AreUnitsOf mf files [] (cu ∷ cus) = ⊥
AreUnitsOf mf files (m ∷ ms) [] = ⊥

-- The units behind those that were there are the ones of some modules, and all that was in the
-- program stays.
pub record Added (mf : MapFile) (mod_ : Module) (ms : List Bytes) (out : Module) : Type 0 where
  pub more_files : List Bytes
  pub files_are : out.source_files ≡ mod_.source_files ++ more_files
  pub types_are : out.types ≡ mod_.types
  pub units : List CompileUnit
  pub behind : out.units ≡ mod_.units ++ units
  pub units_are : AreUnitsOf mf out.source_files ms units

module _ (mf : MapFile) where
  abbrev start : Groups
  start = record { lts_by_module = []; module_order = [] }

  abbrev groups : Groups
  groups = group_tables start mf.line_tables

  abbrev buckets : List (Bytes × List Public)
  buckets = bucket_publics (module_names mf) mf.publics []
