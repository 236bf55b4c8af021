-- ===== src/Map/Populate.antt =====
-- src/map/map_reader.cpp, `populate`: the model of a program from its map file. The two maps by
-- module name hold the publics and the tables themselves where the source holds their indices.
pub mod Owner
pub mod Grouping
pub mod Buckets
pub mod Files
pub mod Units
use vscode_delphi_extension.Base.{
  ℕ, zero, suc, ◌+◌, ◌-◌, ◌%◌, ◌^◌, Bool, true, false, not, ◌&&◌, ◌||◌, Option, none, some, List,
  [], ◌∷◌, ◌++◌, ◌==◌, map, if◌then◌else◌, ◌>>=◌, Bytes, is_empty, codes, length, drop, take, at,
  beq_bytes, find, assign, nat_eq, list_eq,
}
use vscode_delphi_extension.Model.{
  LineEntry, Symbol, SymbolKind, unknown, function, variable, CompileUnit, Module, no_type,
}
use vscode_delphi_extension.Map.Types.{
  Segment, Public, LineRecord, LineTable, MapFile, find_segment,
}
use vscode_delphi_extension.Map.Text.{starts_with}

unfoldable pub resolve_va : MapFile → ℕ → ℕ → ℕ
unfolding find_segment
resolve_va mf segment_id segment_offset = elim (find_segment mf segment_id) [
  | some seg ↦ (seg.start_va + segment_offset) % 2 ^ 64
  | none ↦ 0
]

unfoldable pub index_of : Bytes → List Bytes → Option ℕ
index_of path [] = none
index_of path (f ∷ fs) =
    if beq_bytes f path
    then some 0
    else elim (index_of path fs) [ some i ↦ some (i + 1) | none ↦ none ]

-- The lambda `sourceFileId`: the new list of source files, and the id.
unfoldable pub source_file_id : List Bytes → Bytes → List Bytes × ℕ
unfolding index_of
source_file_id files path = elim (index_of path files) [
  | some i ↦ (files, i % 2 ^ 32)
  | none ↦ let files' = files ++ path ∷ [] in (files', (length files' - 1) % 2 ^ 32)
]

unfoldable pub is_in : Bytes → List Bytes → Bool
is_in x [] = false
is_in x (y ∷ ys) = beq_bytes y x || is_in x ys

-- The loop over the dots of a name below position `n`, from the right: the prefix that is a module.
unfoldable pub owner_below : List Bytes → Bytes → ℕ → Option Bytes
owner_below names name zero = none
owner_below names name (suc n) =
    if at name n == b'.' && is_in (take n name) names
    then some (take n name)
    else owner_below names name n

unfoldable pub owner : List Bytes → Bytes → Option Bytes
unfolding owner_below is_in
owner names name = owner_below names name (length name)

-- `m[k].push_back(v)`.
unfoldable pub push_back {ℓ} :
    {V : Type ℓ} → Bytes → V → List (Bytes × List V) → List (Bytes × List V)
push_back k v m = elim (find k m) [
  | some vs ↦ assign k (vs ++ v ∷ []) m
  | none ↦ assign k (v ∷ []) m
]

unfoldable pub bucket_publics :
    List Bytes → List Public → List (Bytes × List Public) → List (Bytes × List Public)
unfolding owner
bucket_publics names [] m = m
bucket_publics names (p ∷ ps) m =
    bucket_publics names ps
      (elim (owner names p.name) [ some prefix ↦ push_back prefix p m | none ↦ m ])

-- The tables of each module, and the modules in the order of their first tables.
pub record Groups : Type 0 where
  pub lts_by_module : List (Bytes × List LineTable)
  pub module_order : List Bytes

unfoldable pub group_table : Groups → LineTable → Groups
group_table g lt = record {
  lts_by_module = push_back lt.module_name lt g.lts_by_module;
  module_order = elim (find lt.module_name g.lts_by_module) [
    | some ts ↦ g.module_order
    | none ↦ g.module_order ++ lt.module_name ∷ []
  ];
}

unfoldable pub group_tables : Groups → List LineTable → Groups
group_tables g [] = g
group_tables g (lt ∷ lts) = group_tables (group_table g lt) lts

unfoldable pub table_entries : MapFile → ℕ → List LineRecord → List LineEntry
table_entries mf file_id [] = []
table_entries mf file_id (l ∷ ls) =
    (record {
      address = resolve_va mf l.segment_id l.segment_offset;
      file_id = file_id;
      line = l.line;
    })
    ∷ table_entries mf file_id ls

unfoldable pub line_entries : MapFile → ℕ → List LineTable → List LineEntry
line_entries mf file_id [] = []
line_entries mf file_id (lt ∷ lts) =
    table_entries mf file_id lt.lines ++ line_entries mf file_id lts

unfoldable pub symbol_kind : MapFile → ℕ → SymbolKind
unfolding find_segment
symbol_kind mf segment_id = elim (find_segment mf segment_id) [
  | some seg ↦ if beq_bytes seg.klass (codes "CODE") then function else variable
  | none ↦ unknown
]

-- The name without the module, or `none` for `continue`.
unfoldable pub local_name : Bytes → Bytes → Option Bytes
unfolding starts_with
local_name module_name name =
    let prefix = module_name ++ b'.' ∷ [] in
    let local = drop (length prefix) name in
    if not (starts_with name prefix)
    then none
    else if is_empty local
    then none
    else if starts_with local (codes "$pdata$")
    then none
    else if starts_with local (codes "$unwind$")
    then none
    else if at local 0 == b'.'
    then none
    else some local

unfoldable pub symbol : MapFile → Public → Bytes → Symbol
unfolding resolve_va symbol_kind
symbol mf p local =
    let kind = symbol_kind mf p.segment_id in
    record {
      name = elim kind [ variable ↦ local | _ ↦ p.name ];
      address = resolve_va mf p.segment_id p.segment_offset;
      size = 0;
      type = no_type;
      kind = kind;
      params = [];
      locals = [];
    }

unfoldable pub symbols : MapFile → Bytes → List Public → List Symbol
unfolding local_name symbol
symbols mf module_name [] = []
symbols mf module_name (p ∷ ps) =
    let rest = symbols mf module_name ps in
    elim (local_name module_name p.name) [ some local ↦ symbol mf p local ∷ rest | none ↦ rest ]

-- One round of the last loop; `none` is `at` on a missing key, or `front` of an empty vector.
unfoldable pub add_unit :
    MapFile → Groups → List (Bytes × List Public) → Module → Bytes → Option Module
unfolding source_file_id line_entries symbols
add_unit mf g buckets mod_ module_name = do
  lts ← find module_name g.lts_by_module
  elim lts [
    | [] ↦ none
    | lt ∷ rest ↦
        let (files, file_id) = source_file_id mod_.source_files lt.source_path in
        let cu : CompileUnit = record {
          source_path = lt.source_path;
          symbols = elim (find module_name buckets) [
            | some ps ↦ symbols mf module_name ps
            | none ↦ []
          ];
          lines = line_entries mf file_id (lt ∷ rest);
        } in
        some (record mod_ { source_files = files; units = mod_.units ++ cu ∷ [] })
  ]

unfoldable pub add_units :
    MapFile → Groups → List (Bytes × List Public) → Module → List Bytes → Option Module
unfolding add_unit
add_units mf g buckets mod_ [] = some mod_
add_units mf g buckets mod_ (m ∷ ms) = do
  mod' ← add_unit mf g buckets mod_ m
  add_units mf g buckets mod' ms

unfoldable pub populate : MapFile → Module → Option Module
unfolding bucket_publics group_tables add_units
populate mf mod_ =
    let names = map (λ (lt : LineTable). lt.module_name) mf.line_tables in
    let buckets = bucket_publics names mf.publics [] in
    let g = group_tables (record { lts_by_module = []; module_order = [] }) mf.line_tables in
    add_units mf g buckets mod_ g.module_order
