-- ===== src/Rsm/Lookup.antt =====
-- src/rsm/rsm_reader.cpp, the lookups, and the end of src/rsm/rsm_unit_tables.cpp, which fills what
-- they read and stamps the variables. `std::sort` is a parameter.
pub mod ByAddress
pub mod Names
use vscode_delphi_extension.Base.{
  ℕ, zero, suc, ◌+◌, ◌-◌, ◌/◌, ◌%◌, Bool, true, false, not, ◌&&◌, ◌||◌, Option, none, some, List,
  [], ◌∷◌, map, ◌==◌, ltb, leb, if◌then◌else◌, ◌>>=◌, Bytes, beq_bytes, length, is_empty, get_elem?,
  find, emplace, assign, nat_eq,
}
use vscode_delphi_extension.Model.{PrimitiveKind}
use vscode_delphi_extension.Rsm.Types.{Primitive, Variable, ProcedureRecord, UnitTypeEntry}
use vscode_delphi_extension.Rsm.Internal.{lookup_primitive_desc}
use vscode_delphi_extension.Rsm.UnitTables.{UnitAnchor}

unfoldable pub resolve_primitive : Bytes → Option (PrimitiveKind × ℕ)
unfolding lookup_primitive_desc
resolve_primitive pascal_name = elim (lookup_primitive_desc pascal_name) [
  | some d ↦ some (d.kind, d.byte_size)
  | none ↦ none
]

unfoldable pub find_primitive : List Primitive → Bytes → Option Primitive
find_primitive [] name = none
find_primitive (p ∷ ps) name = if beq_bytes p.name name then some p else find_primitive ps name

-- The loops that fill a map from addresses to indices, from index `k` on.
unfoldable pub index_by {ℓ} :
    {A : Type ℓ} → (A → ℕ) → (A → Bool) → ℕ → List A → List (ℕ × ℕ) → List (ℕ × ℕ)
index_by address keep k [] m = m
index_by address keep k (a ∷ as_) m =
    index_by address keep (k + 1) as_ (if keep a then emplace (address a) k m else m)

unfoldable pub var_by_va : List Variable → List (ℕ × ℕ)
unfolding index_by
var_by_va vars = index_by (λ v. v.address) (λ v. leb 0x00400000 v.address) 0 vars []

unfoldable pub proc_by_va : List ProcedureRecord → List (ℕ × ℕ)
unfolding index_by
proc_by_va procs = index_by (λ p. p.address) (λ p. true) 0 procs []

-- What stands at the index that the map has for the address.
abbrev pub at_index {ℓ} : {A : Type ℓ} → List (ℕ × ℕ) → List A → ℕ → Option A
at_index m items address = elim (find address m) [ none ↦ none | some k ↦ get_elem? items k ]

unfoldable pub find_variable_at : List Variable → ℕ → Option Variable
unfolding var_by_va
find_variable_at vars address = at_index (var_by_va vars) vars address

unfoldable pub find_procedure_at : List ProcedureRecord → ℕ → Option ProcedureRecord
unfolding proc_by_va
find_procedure_at procs address = at_index (proc_by_va procs) procs address

-- The offset before `std::upper_bound`, if there is one.
unfoldable pub prior_offset : ℕ → Option ℕ → List ℕ → Option ℕ
prior_offset off best [] = best
prior_offset off best (a ∷ offsets) = if ltb off a then best else prior_offset off (some a) offsets

unfoldable pub unit_anchor_for : List ℕ → ℕ → ℕ
unfolding prior_offset
unit_anchor_for offsets off = elim (prior_offset off none offsets) [ none ↦ 0 | some a ↦ a ]

unfoldable pub unit_type_entry_for_marker :
    List (ℕ × List UnitTypeEntry) → ℕ → ℕ → Option UnitTypeEntry
unit_type_entry_for_marker tables anchor marker =
    if anchor == 0
    then none
    else if marker == 0 || not (marker % 2 == 0)
    then none
    else elim (find anchor tables) [
      | none ↦ none
      | some entries ↦
          let idx = marker / 2 in
          if idx == 0 || ltb (length entries) idx then none else get_elem? entries (idx - 1)
    ]

unfoldable pub primitive_name_for_marker : List (ℕ × List UnitTypeEntry) → ℕ → ℕ → Option Bytes
unfolding unit_type_entry_for_marker
primitive_name_for_marker tables anchor marker =
    elim (unit_type_entry_for_marker tables anchor marker) [ some e ↦ some e.name | none ↦ none ]

-- The tables that are not empty, by the offsets of their anchors.
unfoldable pub primary_tables :
    List UnitAnchor
    → List (List UnitTypeEntry)
    → List (ℕ × List UnitTypeEntry)
    → List (ℕ × List UnitTypeEntry)
primary_tables (u ∷ us) (t ∷ ts) m =
    primary_tables us ts (if is_empty t then m else assign u.file_offset t m)
primary_tables _ _ m = m

-- The name that `resolvePascalType` stores; `none` is an early return.
unfoldable pub pascal_name :
    List UnitAnchor → List (ℕ × List UnitTypeEntry) → Variable → Option Bytes
unfolding prior_offset
pascal_name anchors tables v =
    if not v.is_primitive || v.type_marker == 0 || not (v.type_marker % 2 == 0)
    then none
    else let idx = v.type_marker / 2 in
      if idx == 0
      then none
      else elim (prior_offset v.file_offset none
          (map (λ (u : UnitAnchor). u.file_offset) anchors)) [
            | none ↦ none
            | some a ↦ elim (find a tables) [
              | none ↦ none
              | some entries ↦
                  if ltb (length entries) idx
                  then none
                  else elim (get_elem? entries (idx - 1)) [ none ↦ none | some e ↦ some e.name ]
            ]
          ]

-- A variable with its type's name and its unit.
unfoldable pub stamp :
    (List ℕ → List ℕ) → List UnitAnchor → List (ℕ × List UnitTypeEntry) → Variable → Variable
unfolding pascal_name unit_anchor_for
stamp sort anchors tables v =
    let named = elim (pascal_name anchors tables v) as (λ x. Variable) [
      | none ↦ v
      | some name ↦ record v { pascal_type = name }
    ] in
    record named {
      unit_anchor_offset =
          unit_anchor_for (sort (map (λ (u : UnitAnchor). u.file_offset) anchors)) v.file_offset;
    }

unfoldable pub stamp_procedure :
    (List ℕ → List ℕ)
    → List UnitAnchor
    → List (ℕ × List UnitTypeEntry)
    → ProcedureRecord
    → ProcedureRecord
unfolding stamp
stamp_procedure sort anchors tables p = record p {
  params = map (stamp sort anchors tables) p.params;
  locals = map (stamp sort anchors tables) p.locals;
}
