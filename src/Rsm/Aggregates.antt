-- ===== src/Rsm/Aggregates.antt =====
-- src/rsm/rsm_aggregates.cpp, scanAggregateTypes: the scan for records of types, fields, enumerators,
-- properties and class headers. `none` is a read outside the buffer, or a loop that ran out of fuel;
-- `some none` is `++i; continue`.
pub mod Attach
pub mod Rounds
pub mod Order
pub mod Sound
pub mod Changes
pub mod Kinds
pub mod Resolve
use vscode_delphi_extension.Base.{
  ℕ, zero, suc, ◌+◌, ◌-◌, ◌/◌, ◌%◌, min, not, ◌&&◌, ◌||◌, Option, none, some, List, [], ◌∷◌, ◌++◌,
  ◌==◌, ltb, leb, if◌then◌else◌, ◌>>=◌, ℤ, pos, Bytes, length, read, or16, bit_and,
}
use vscode_delphi_extension.Rsm.Internal.{is_printable_name}
use vscode_delphi_extension.Rsm.Lookup.{unit_anchor_for}
use vscode_delphi_extension.Rsm.Procedures.{string_at}
use vscode_delphi_extension.Rsm.Variables.{is_primitive_shape}
use vscode_delphi_extension.Rsm.AggregateTypes.{
  FieldEntry, EnumEntry, PropertyEntry, AggregateKind, unknown_kind, plain_record, packed_record,
  class_type, enum_type, set_type, AggregateType, ClassHeader, push_by_unit, push_by_hash, Pending,
  push_pending, Scanned, nothing_pending,
}

unfoldable pub read_u16_le : Bytes → ℕ → Option ℕ
read_u16_le buf off = do b0 ← read buf off; b1 ← read buf (off + 1); some (or16 b0 b1)

-- What follows a check, unless that moved on to the next byte.
unfoldable pub and_then {ℓ κ} :
    {A : Type ℓ} {B : Type κ} → Option (Option A) → (A → Option (Option B)) → Option (Option B)
and_then none f = none
and_then (some none) f = some none
and_then (some (some a)) f = f a

-- The length of a name that is printable and leaves room for what follows it.
unfoldable pub named_at : ℕ → ℕ → Bytes → ℕ → Option (Option ℕ)
named_at least room buf i = do
  nl ← read buf (i + 1)
  (if ltb nl least || ltb 64 nl || ltb (length buf) (i + 2 + nl + room) then some none else (do
    printable ← is_printable_name buf (i + 2) nl
    some (if printable then some nl else none)))

-- 0x2a: a type.
unfoldable pub linked_hash_at : Bytes → ℕ → ℕ → Option ℕ
unfolding read_u16_le
linked_hash_at buf at kind =
    if not (bit_and kind 0x80 == 0) && ltb (at + 8) (length buf)
    then read_u16_le buf (at + 7)
    else some 0

unfoldable pub type_record : List ℕ → Bytes → Scanned → ℕ → ℕ → Option (Option (Scanned × ℕ))
unfolding read_u16_le linked_hash_at
type_record anchors buf s i nl = do
  let at = i + 2 + nl
  z1 ← read buf (at + 1)
  z2 ← read buf (at + 2)
  (if not (z1 == 0) || not (z2 == 0) then some none else (do
    own ← read_u16_le buf (at + 3)
    kind ← read buf at
    linked ← linked_hash_at buf at kind
    let a : AggregateType = record {
      name = string_at buf (i + 2) nl;
      own_hash = own;
      kind = unknown_kind;
      fields = [];
      enum_entries = [];
      properties = [];
      base_hash = 0;
      linked_hash = linked;
      total_size = 0;
      file_offset = i;
      unit_anchor_offset = unit_anchor_for anchors i;
    }
    some (some (record s { aggregates = s.aggregates ++ a ∷ [] }, at + 5))))

-- The reference to the type of a field: its marker, its hash, and the index behind it.
unfoldable pub field_type_at : Bytes → ℕ → Option (Option (ℕ × ℕ × ℕ))
unfolding read_u16_le
field_type_at buf cur = do
  b0 ← read buf cur
  (if is_primitive_shape b0
      then some (some (b0, 0, cur + 1))
      else if ltb (length buf) (cur + 2)
      then some none
      else (do h ← read_u16_le buf cur; some (some (0, h, cur + 2))))

-- The offset of a field, and the index behind it.
unfoldable pub field_offset_at : Bytes → ℕ → Option (Option (ℕ × ℕ))
unfolding read_u16_le
field_offset_at buf cur = if leb (length buf) cur then some none else (do
  b0 ← read buf cur
  (if b0 % 2 == 0
      then some (some (b0 / 2, cur + 1))
      else if ltb (length buf) (cur + 2)
      then some none
      else (do v ← read_u16_le buf cur; some (some ((v - 1) / 4, cur + 2)))))

-- The first 0xff of the next `n` bytes.
unfoldable pub find_end : ℕ → Bytes → ℕ → Option (Option ℕ)
find_end zero buf j = some none
find_end (suc n) buf j =
    let rest = find_end n buf (j + 1) in
    (do b ← read buf j; (if b == 0xFF then some (some j) else rest))

-- The end of a record, two bytes behind `from` or further, and the hash before it.
unfoldable pub parent_at : Bytes → ℕ → ℕ → Option (Option (ℕ × ℕ))
unfolding find_end and_then read_u16_le
parent_at buf from walk_end = and_then (find_end (walk_end - from) buf from) (λ ff_at.
    if ltb ff_at (from + 2)
    then some none
    else (do parent ← read_u16_le buf (ff_at - 2); some (some (parent, ff_at))))

-- 0x2c: a field.
unfoldable pub field_record : List ℕ → Bytes → Scanned → ℕ → ℕ → Option (Option (Scanned × ℕ))
unfolding field_type_at field_offset_at parent_at and_then push_pending
field_record anchors buf s i nl = do
  let at = i + 2 + nl
  z0 ← read buf at
  z2 ← read buf (at + 2)
  (if not (z0 == 0) || not (z2 == 0) then some none else (do
    storage ← read buf (at + 1)
    and_then (field_type_at buf (at + 3)) (λ (marker, hash, cur).
        and_then (field_offset_at buf cur) (λ (offset, cur').
          and_then (parent_at buf cur' (min (cur' + 24) (length buf))) (λ (parent, ff_at).
            let fe : FieldEntry = record {
              name = string_at buf (i + 2) nl;
              offset = offset;
              primitive_marker = marker;
              type_hash = hash;
              storage = storage;
            } in
            some (
              some
                (record s { fields = push_pending anchors i parent fe s.fields }, ff_at + 1)))))))

-- 0x25: an enumerator.
unfoldable pub enum_record : List ℕ → Bytes → Scanned → ℕ → ℕ → Option (Option (Scanned × ℕ))
unfolding read_u16_le push_pending
enum_record anchors buf s i nl = do
  let at = i + 2 + nl
  a0 ← read buf at
  z1 ← read buf (at + 1)
  z2 ← read buf (at + 2)
  (if not (a0 == 0x0A) || not (z1 == 0) || not (z2 == 0) then some none else (do
    parent ← read_u16_le buf (at + 3)
    z5 ← read buf (at + 5)
    z6 ← read buf (at + 6)
    (if not (z5 == 0) || not (z6 == 0) then some none else (do
      ord_x2 ← read buf (at + 7)
      let e : EnumEntry = record { name = string_at buf (i + 2) nl; ordinal = pos (ord_x2 / 2) }
      some (some (record s { enums = push_pending anchors i parent e s.enums }, at + 8))))))

-- 0x31: a property; the scan goes on at the next byte.
unfoldable pub property_record : List ℕ → Bytes → Scanned → ℕ → ℕ → Option (Option (Scanned × ℕ))
unfolding parent_at and_then push_pending
property_record anchors buf s i nl = do
  let at = i + 2 + nl
  z0 ← read buf at
  z1 ← read buf (at + 1)
  z2 ← read buf (at + 2)
  s4 ← read buf (at + 4)
  s5 ← read buf (at + 5)
  (if not (z0 == 0) || not (z1 == 0x02) || not (z2 == 0) || not (s4 == 0xFE) || not (s5 == 0x0F)
      then some none
      else and_then (parent_at buf (at + 6) (min (at + 64) (length buf))) (λ (parent, ff_at). (do
        marker ← read buf (at + 3)
        let pe : PropertyEntry = record { name = string_at buf (i + 2) nl; type_marker = marker }
        some (
            some
              (record s { properties = push_pending anchors i parent pe s.properties }, i + 1)))))

-- The field list in the next `n` bytes.
unfoldable pub find_field_list : ℕ → Bytes → ℕ → Option (Option ℕ)
find_field_list zero buf j = some none
find_field_list (suc n) buf j =
    let rest = find_field_list n buf (j + 1) in
    (do
      b0 ← read buf j
      b1 ← read buf (j + 1)
      b2 ← read buf (j + 2)
      (if b0 == 0x25 && b1 == 0x3F && b2 == 0 then some (some j) else rest))

-- The hash ten bytes before the field list, or 0.
unfoldable pub base_at : Bytes → Option ℕ → Option ℕ
unfolding read_u16_le
base_at buf none = some 0
base_at buf (some fl_at) = if leb 10 fl_at then read_u16_le buf (fl_at - 10) else some 0

-- 0x47: the header of a class.
unfoldable pub class_header : Bytes → Scanned → ℕ → Option (Option (Scanned × ℕ))
unfolding find_field_list base_at read_u16_le
class_header buf s i = do
  h1 ← read buf (i + 1)
  h2 ← read buf (i + 2)
  h3 ← read buf (i + 3)
  h4 ← read buf (i + 4)
  (if not (h1 == 0 && h2 == 0x10 && h3 == 0 && h4 == 0) then some none else (do
    own ← read_u16_le buf (i + 5)
    fl ← find_field_list (min (i + 80) (length buf - 3) - (i + 7)) buf (i + 7)
    base ← base_at buf fl
    let ch : ClassHeader = record { own_hash = own; base_hash = base }
    some (some (record s { class_headers = s.class_headers ++ ch ∷ [] }, i + 7))))

-- The round at `i`.
unfoldable pub aggregate_at : List ℕ → Bytes → Scanned → ℕ → Option (Option (Scanned × ℕ))
unfolding named_at and_then type_record field_record enum_record property_record class_header
aggregate_at anchors buf s i = do
  tag ← read buf i
  (if tag == 0x2A
      then and_then (named_at 2 6 buf i) (type_record anchors buf s i)
      else if tag == 0x2C
      then and_then (named_at 1 6 buf i) (field_record anchors buf s i)
      else if tag == 0x25
      then and_then (named_at 1 9 buf i) (enum_record anchors buf s i)
      else if tag == 0x31
      then and_then (named_at 1 10 buf i) (property_record anchors buf s i)
      else if tag == 0x47 && ltb (i + 24) (length buf)
      then class_header buf s i
      else some none)

unfoldable pub scan_aggregates_from : ℕ → List ℕ → Bytes → ℕ → Scanned → Option Scanned
unfolding aggregate_at
scan_aggregates_from zero anchors buf i s = none
scan_aggregates_from (suc fuel) anchors buf i s = if leb (length buf) (i + 8) then some s else (do
  r ← aggregate_at anchors buf s i
  elim r [
    | none ↦ scan_aggregates_from fuel anchors buf (i + 1) s
    | some (s', next) ↦ scan_aggregates_from fuel anchors buf next s'
  ])

unfoldable pub scan_aggregates : List ℕ → Bytes → Option Scanned
unfolding scan_aggregates_from
scan_aggregates anchors buf =
    scan_aggregates_from (length buf + 1) anchors buf (min 0x420 (length buf)) (record {
      aggregates = [];
      fields = nothing_pending;
      enums = nothing_pending;
      properties = nothing_pending;
      class_headers = [];
    })
