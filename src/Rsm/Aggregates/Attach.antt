-- ===== src/Rsm/Aggregates/Attach.antt =====
-- src/rsm/rsm_aggregates.cpp, scanAggregateTypes behind the scan: the indexes by hash, what is
-- attached to the types through them, and the kinds. `none` is an index outside the types.
use vscode_delphi_extension.Base.{
  ℕ, zero, suc, ◌+◌, ◌*◌, ◌%◌, ◌^◌, Bool, false, not, ◌&&◌, ◌||◌, Option, none, some, List, [], ◌∷◌,
  ◌++◌, map, ◌==◌, ltb, if◌then◌else◌, ◌>>=◌, Bytes, is_empty, bit_or, find, assign, emplace,
  nat_eq, pair_eq,
}
use vscode_delphi_extension.Rsm.AggregateTypes.{
  FieldEntry, EnumEntry, PropertyEntry, AggregateKind, unknown_kind, plain_record, packed_record,
  class_type, enum_type, set_type, AggregateType, ClassHeader, Scanned,
}
use vscode_delphi_extension.Rsm.Aggregates.{scan_aggregates}

-- `aggr_by_hash_` and `aggr_by_unit_hash_`.
pub record Indexes : Type 0 where
  pub by_hash : List (ℕ × ℕ)
  pub by_unit : List ((ℕ × ℕ) × ℕ)

-- An index under a hash that has none yet.
abbrev pub alias : ℕ → ℕ → ℕ → Indexes → Indexes
alias unit h k ix = record {
  by_hash = emplace h k ix.by_hash;
  by_unit = if unit == 0 then ix.by_unit else emplace (unit, h) k ix.by_unit;
}

unfoldable pub index_one : ℕ → AggregateType → Indexes → Indexes
index_one k a ix =
    let own : Indexes = record {
      by_hash = assign a.own_hash k ix.by_hash;
      by_unit =
          if a.unit_anchor_offset == 0
          then ix.by_unit
          else assign (a.unit_anchor_offset, a.own_hash) k ix.by_unit;
    } in
    if not (a.linked_hash == 0) && not (a.linked_hash == a.own_hash)
    then alias a.unit_anchor_offset a.linked_hash k own
    else own

unfoldable pub index_all : ℕ → List AggregateType → Indexes → Indexes
unfolding index_one
index_all k [] ix = ix
index_all k (a ∷ as_) ix = index_all (suc k) as_ (index_one k a ix)

unfoldable pub is_class_hash : List ClassHeader → ℕ → Bool
is_class_hash [] h = false
is_class_hash (ch ∷ chs) h = ch.own_hash == h || is_class_hash chs h

-- The only hash of a class header with this low byte, or 0.
unfoldable pub class_by_low : ℕ → ℕ → List ClassHeader → ℕ
class_by_low link_low cls_own [] = cls_own
class_by_low link_low cls_own (ch ∷ chs) =
    let same = ch.own_hash % 2 ^ 8 == link_low in
    let rest = class_by_low link_low (if same && cls_own == 0 then ch.own_hash else cls_own) chs in
    if same && not (cls_own == 0) && not (cls_own == ch.own_hash) then 0 else rest

abbrev pub field_parent : ℕ → ℕ
field_parent linked_hash = bit_or (linked_hash % 2 ^ 8 * 2 ^ 8) 0x08

unfoldable pub chain_one : List ClassHeader → ℕ → AggregateType → Indexes → Indexes × AggregateType
unfolding is_class_hash class_by_low
chain_one headers k a ix =
    if a.linked_hash == 0 || a.unit_anchor_offset == 0
    then (ix, a)
    else let ix1 = alias a.unit_anchor_offset (field_parent a.linked_hash) k ix in
      let cls_own = class_by_low (a.linked_hash % 2 ^ 8) 0 headers in
      if is_class_hash headers a.linked_hash
      then (ix1, record a { kind = class_type })
      else if cls_own == 0
      then (ix1, a)
      else (alias a.unit_anchor_offset cls_own k ix1, record a { kind = class_type })

unfoldable pub chain_all :
    List ClassHeader → ℕ → List AggregateType → Indexes → Indexes × List AggregateType
unfolding chain_one
chain_all headers k [] ix = (ix, [])
chain_all headers k (a ∷ as_) ix =
    let (ix1, a') = chain_one headers k a ix in
    let (ix2, more) = chain_all headers (suc k) as_ ix1 in (ix2, a' ∷ more)

-- `aggregates_[k]` is changed.
unfoldable pub modify_at :
    ℕ → (AggregateType → AggregateType) → List AggregateType → Option (List AggregateType)
modify_at k f [] = none
modify_at zero f (a ∷ as_) = some (f a ∷ as_)
modify_at (suc k) f (a ∷ as_) = do more ← modify_at k f as_; some (a ∷ more)

-- The loops over what is pending: a type that the index does not have is passed over.
unfoldable pub attach {ℓ κ} :
    {K : Type ℓ} {A : Type κ}
    → (K → Option ℕ)
    → (A → AggregateType → AggregateType)
    → List (K × A)
    → List AggregateType
    → Option (List AggregateType)
unfolding modify_at
attach lookup put [] as_ = some as_
attach lookup put ((k, v) ∷ m) as_ = elim (lookup k) [
  | none ↦ attach lookup put m as_
  | some j ↦ (do changed ← modify_at j (put v) as_; attach lookup put m changed)
]

-- What waits with a unit replaces, what waits without one fills in.
abbrev pub put_fields : List FieldEntry → AggregateType → AggregateType
put_fields v a = record a { fields = v }

abbrev pub fill_fields : List FieldEntry → AggregateType → AggregateType
fill_fields v a = if is_empty a.fields then record a { fields = v } else a

abbrev pub put_enums : List EnumEntry → AggregateType → AggregateType
put_enums v a = record a { enum_entries = v }

abbrev pub fill_enums : List EnumEntry → AggregateType → AggregateType
fill_enums v a = if is_empty a.enum_entries then record a { enum_entries = v } else a

abbrev pub add_properties : List PropertyEntry → AggregateType → AggregateType
add_properties v a = record a { properties = a.properties ++ v }

-- The base of a class, if it is the hash of a type.
unfoldable pub put_base : Indexes → ClassHeader → AggregateType → AggregateType
put_base ix ch a = if ch.base_hash == 0 then a else elim (find ch.base_hash ix.by_hash) [
  | none ↦ a
  | some k ↦ record a { base_hash = ch.base_hash }
]

unfoldable pub any_packed : List FieldEntry → Bool
any_packed [] = false
any_packed (fe ∷ fes) = fe.storage == 0xA0 || any_packed fes

unfoldable pub kind_of : List ClassHeader → AggregateType → AggregateKind
unfolding any_packed is_class_hash
kind_of headers a =
    if not (is_empty a.enum_entries)
    then enum_type
    else if is_class_hash headers a.own_hash
        || not (a.linked_hash == 0) && is_class_hash headers a.linked_hash
    then class_type
    else if any_packed a.fields
    then packed_record
    else if not (is_empty a.fields)
    then plain_record
    else unknown_kind

-- A class that the chains have found stays one.
unfoldable pub classify : List ClassHeader → AggregateType → AggregateType
unfolding kind_of
classify headers a = elim a.kind as (λ k. AggregateType) [
  | class_type ↦ a
  | unknown_kind ↦ record a { kind = kind_of headers a }
  | plain_record ↦ record a { kind = kind_of headers a }
  | packed_record ↦ record a { kind = kind_of headers a }
  | enum_type ↦ record a { kind = kind_of headers a }
  | set_type ↦ record a { kind = kind_of headers a }
]

unfoldable pub highest : ℕ → List FieldEntry → ℕ
highest hi [] = hi
highest hi (fe ∷ fes) = highest (if ltb hi fe.offset then fe.offset else hi) fes

unfoldable pub measure : AggregateType → AggregateType
unfolding highest
measure a =
    let hi = highest 0 a.fields in
    record a { total_size = if hi == 0 && is_empty a.fields then 0 else (hi + 8) % 2 ^ 32 }

-- `visit` is the order in which an unordered map is gone through.
unfoldable pub attach_all :
    ((A : Type 0) → List (ℕ × A) → List (ℕ × A))
    → Scanned
    → Indexes
    → List AggregateType
    → Option (List AggregateType)
unfolding attach put_base classify measure
attach_all visit s ix as_ = do
  let of_unit = λ (k : ℕ × ℕ). find k ix.by_unit
  let of_hash = λ (h : ℕ). find h ix.by_hash
  as1 ← attach of_unit put_fields s.fields.by_unit as_
  as2 ← attach of_hash fill_fields (visit (List FieldEntry) s.fields.by_hash) as1
  as3 ← attach of_unit put_enums s.enums.by_unit as2
  as4 ← attach of_hash fill_enums (visit (List EnumEntry) s.enums.by_hash) as3
  as5 ←
      attach of_hash (put_base ix) (map (λ (ch : ClassHeader). (ch.own_hash, ch)) s.class_headers)
        as4
  let measured = map measure (map (classify s.class_headers) as5)
  as6 ← attach of_unit add_properties s.properties.by_unit measured
  attach of_hash add_properties (visit (List PropertyEntry) s.properties.by_hash) as6

unfoldable pub scan_aggregate_types :
    ((A : Type 0) → List (ℕ × A) → List (ℕ × A))
    → List ℕ
    → Bytes
    → Option (List AggregateType × Indexes)
unfolding index_all chain_all attach_all
scan_aggregate_types visit anchors buf = do
  s ← scan_aggregates anchors buf
  let (ix, chained) =
      chain_all s.class_headers 0 s.aggregates
        (index_all 0 s.aggregates (record { by_hash = []; by_unit = [] }))
  attached ← attach_all visit s ix chained
  some (attached, ix)
