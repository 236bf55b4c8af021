-- ===== src/Tests/Aggregates.antt =====
-- src/rsm/rsm_aggregates.cpp on a file with one enumeration.
use vscode_delphi_extension.Base.{
  ℕ, zero, suc, false, pos, ◌≡◌, refl, Option, some, none, List, [], ◌∷◌, ◌++◌, map, min, length,
  Bytes, codes, find, assign, or16, All, Returns,
}
use vscode_delphi_extension.Rsm.Types.{Variable}
use vscode_delphi_extension.Rsm.Internal.{is_printable_name}
use vscode_delphi_extension.Rsm.Lookup.{unit_anchor_for}
use vscode_delphi_extension.Rsm.AggregateTypes.{AggregateType, AggregateKind, enum_type}
use vscode_delphi_extension.Rsm.Aggregates.{read_u16_le, scan_aggregates}
use vscode_delphi_extension.Rsm.Aggregates.Attach.{Indexes, scan_aggregate_types}
use vscode_delphi_extension.Rsm.Aggregates.Order.{InRow}
use vscode_delphi_extension.Rsm.Aggregates.Sound.{AreInside}
use vscode_delphi_extension.Rsm.Aggregates.Changes.{HasKind}
use vscode_delphi_extension.Rsm.Aggregates.Kinds.{scan_aggregate_types-Returns}

abbrev zeros : ℕ → Bytes
zeros zero = []
zeros (suc n) = 0 ∷ zeros n

-- The type `TA` with the hash 0x0105, and its enumerator `one` of the value 1.
abbrev file : Bytes
file =
    zeros 0x420
    ++ (0x2A
        ∷ 2
        ∷ (codes "TA"
            ++ (0
                ∷ 0
                ∷ 0
                ∷ 5
                ∷ 1
                ∷ 0x25
                ∷ 3
                ∷ (codes "one" ++ (0x0A ∷ 0 ∷ 0 ∷ 5 ∷ 1 ∷ 0 ∷ 0 ∷ 2 ∷ zeros 12)))))

scan_aggregate_types_run :
    elim (scan_aggregate_types (λ A m. m) [] file)
      as (λ x. Option (List (Bytes × AggregateKind × ℕ))) [
        | none ↦ none
        | some (as_, ix) ↦
            some (map (λ (a : AggregateType). (a.name, a.kind, length a.enum_entries)) as_)
      ]
    ≡ some ((codes "TA", enum_type, 1) ∷ [])
unfolding scan_aggregate_types scan_aggregates is_printable_name read_u16_le unit_anchor_for find
    assign or16
scan_aggregate_types_run = refl

scan_aggregate_types-Returns_example :
    Returns
      (λ r.
        InRow (min 0x420 (length file)) r.0 (length file)
        × AreInside (length r.0) r.1
        × All HasKind r.0)
      (scan_aggregate_types (λ A m. m) [] file)
scan_aggregate_types-Returns_example = scan_aggregate_types-Returns (λ A m. m) [] file

abbrev found_type : AggregateType
found_type = record {
  name = codes "TA";
  own_hash = 0x0105;
  kind = enum_type;
  fields = [];
  enum_entries = [];
  properties = [];
  base_hash = 0;
  linked_hash = 0;
  total_size = 0;
  file_offset = 0x420;
  unit_anchor_offset = 0;
}

abbrev hashes : Indexes
hashes = record { by_hash = (0x0105, 0) ∷ []; by_unit = [] }

abbrev typed : Variable
typed = record {
  name = codes "v";
  address = 0x401000;
  stack_offset = pos 0;
  inline_type_id = 0x0105;
  trailer_type_id = 0;
  type_marker = 0;
  is_primitive = false;
  has_trailer = false;
  file_offset = 0x500;
  pascal_type = [];
  unit_anchor_offset = 0;
}
