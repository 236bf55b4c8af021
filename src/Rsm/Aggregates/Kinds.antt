-- ===== src/Rsm/Aggregates/Kinds.antt =====
-- The types that the scan for aggregates leaves: where they are, and which kind they have.
use vscode_delphi_extension.Base.{
  ℕ, ◌≡◌, ◌∙◌, min, Option, List, [], ◌∷◌, map, All, ◌>>=◌, Bytes, length, find, nat_eq, pair_eq,
  Returns, Returns-bind, Returns-map, arith,
}
use vscode_delphi_extension.Rsm.AggregateTypes.{
  FieldEntry, EnumEntry, PropertyEntry, AggregateType, ClassHeader, Scanned,
}
use vscode_delphi_extension.Rsm.Aggregates.{scan_aggregates}
use vscode_delphi_extension.Rsm.Aggregates.Attach.{
  Indexes, index_all, chain_all, attach, put_fields, fill_fields, put_enums, fill_enums,
  add_properties, put_base, classify, measure, attach_all, scan_aggregate_types,
}
use vscode_delphi_extension.Rsm.Aggregates.Order.{InRow, scan_aggregates-InRow}
use vscode_delphi_extension.Rsm.Aggregates.Sound.{
  find-Below, AreInside, index_all-AreInside, SameType, same, Each, chain_all-AreInside,
  Each-length, Each-joins, attach-Each, map-Each, SameType-joins, Each-InRow,
}
use vscode_delphi_extension.Rsm.Aggregates.Changes.{
  HasKind, SameShown, shown, SameShown-joins, Each-HasKind, Each-SameType, measured-HasKind,
  put_fields-Keeps, put_enums-Keeps, fill_fields-Keeps, fill_enums-Keeps, put_base-Keeps,
  add_properties-SameShown, classify-Keeps, measure-Keeps,
}

module _ (visit : (A : Type 0) → List (ℕ × A) → List (ℕ × A)) (ix : Indexes) (n : ℕ)
    (inside : AreInside n ix) where
  abbrev of_unit : ℕ × ℕ → Option ℕ
  of_unit k = find k ix.by_unit

  abbrev of_hash : ℕ → Option ℕ
  of_hash h = find h ix.by_hash

  -- One loop behind another, through either index.
  unit_step {κ} :
      {A : Type κ} (R : AggregateType → AggregateType → Type 0)
      (stays : (a : AggregateType) → R a a)
      (joins : (a b d : AggregateType) → R a b → R b d → R a d)
      (put : A → AggregateType → AggregateType) (m : List ((ℕ × ℕ) × A))
      (as_ bs : List AggregateType)
      → ((v : A) (a : AggregateType) → R a (put v a))
      → length as_ ≡ n
      → Each R as_ bs
      → Returns (Each R as_) (attach of_unit put m bs)
  unit_step R stays joins put m as_ bs keeps len h =
      Returns-map (Each R bs) (Each R as_) (attach of_unit put m bs)
        (λ ds d. Each-joins R stays joins as_ bs ds h d)
        (attach-Each R stays joins n of_unit put m bs keeps
          (λ k j e. find-Below n k j ix.by_unit inside.1 e) (Each-length R as_ bs h ∙ len))

  hash_step {κ} :
      {A : Type κ} (R : AggregateType → AggregateType → Type 0)
      (stays : (a : AggregateType) → R a a)
      (joins : (a b d : AggregateType) → R a b → R b d → R a d)
      (put : A → AggregateType → AggregateType) (m : List (ℕ × A)) (as_ bs : List AggregateType)
      → ((v : A) (a : AggregateType) → R a (put v a))
      → length as_ ≡ n
      → Each R as_ bs
      → Returns (Each R as_) (attach of_hash put m bs)
  hash_step R stays joins put m as_ bs keeps len h =
      Returns-map (Each R bs) (Each R as_) (attach of_hash put m bs)
        (λ ds d. Each-joins R stays joins as_ bs ds h d)
        (attach-Each R stays joins n of_hash put m bs keeps
          (λ k j e. find-Below n k j ix.by_hash inside.0 e) (Each-length R as_ bs h ∙ len))

  abbrev Attached : List AggregateType → List AggregateType → Type 0
  Attached as_ bs = Each SameType as_ bs × All HasKind bs

  properties-Attached :
      (s : Scanned) (as_ bs : List AggregateType)
      → length bs ≡ n
      → Each SameType as_ bs
      → All HasKind bs
      → Returns (Attached as_) (do
        as6 ← attach of_unit add_properties s.properties.by_unit bs
        attach of_hash add_properties (visit (List PropertyEntry) s.properties.by_hash) as6)
  properties-Attached s as_ bs len h kinds =
      Returns-bind (Each SameShown bs) (Attached as_)
        (attach of_unit add_properties s.properties.by_unit bs) _
        (unit_step SameShown shown SameShown-joins add_properties s.properties.by_unit bs bs
          add_properties-SameShown len (itself bs))
        (λ as6 h6.
          Returns-map (Each SameShown bs) (Attached as_)
            (attach of_hash add_properties (visit (List PropertyEntry) s.properties.by_hash) as6)
            (λ ds d. (
              Each-joins SameType same SameType-joins as_ bs ds h (Each-SameType bs ds d),
              Each-HasKind bs ds d kinds,
            ))
            (hash_step SameShown shown SameShown-joins add_properties
              (visit (List PropertyEntry) s.properties.by_hash) bs as6 add_properties-SameShown len
              h6))
    where
      itself : (xs : List AggregateType) → Each SameShown xs xs
      itself [] = tt
      itself (x ∷ xs) = (shown x, itself xs)

  attach_all-Attached :
      (s : Scanned) (as_ : List AggregateType)
      → length as_ ≡ n
      → Returns (Attached as_) (attach_all visit s ix as_)
  unfolding attach_all
  attach_all-Attached s as_ len =
      let P = Each SameType as_ in
      Returns-bind P (Attached as_) (attach of_unit put_fields s.fields.by_unit as_) _
        (unit_step SameType same SameType-joins put_fields s.fields.by_unit as_ as_ put_fields-Keeps
          len (itself as_))
        (λ as1 h1.
          Returns-bind P (Attached as_)
            (attach of_hash fill_fields (visit (List FieldEntry) s.fields.by_hash) as1) _
            (hash_step SameType same SameType-joins fill_fields
              (visit (List FieldEntry) s.fields.by_hash) as_ as1 fill_fields-Keeps len h1)
            (λ as2 h2.
              Returns-bind P (Attached as_) (attach of_unit put_enums s.enums.by_unit as2) _
                (unit_step SameType same SameType-joins put_enums s.enums.by_unit as_ as2
                  put_enums-Keeps len h2)
                (λ as3 h3.
                  Returns-bind P (Attached as_)
                    (attach of_hash fill_enums (visit (List EnumEntry) s.enums.by_hash) as3) _
                    (hash_step SameType same SameType-joins fill_enums
                      (visit (List EnumEntry) s.enums.by_hash) as_ as3 fill_enums-Keeps len h3)
                    (λ as4 h4.
                      Returns-bind P (Attached as_)
                        (attach of_hash (put_base ix)
                          (map (λ (ch : ClassHeader). (ch.own_hash, ch)) s.class_headers) as4)
                        _
                        (hash_step SameType same SameType-joins (put_base ix)
                          (map (λ (ch : ClassHeader). (ch.own_hash, ch)) s.class_headers) as_ as4
                          (put_base-Keeps ix) len h4)
                        (λ as5 h5.
                          let classified = map (classify s.class_headers) as5 in
                          let measured = map measure classified in
                          let whole : Each SameType as_ measured =
                            Each-joins SameType same SameType-joins as_ classified measured
                              (Each-joins SameType same SameType-joins as_ as5 classified h5 (
                                map-Each SameType same SameType-joins (classify s.class_headers) as5
                                  (classify-Keeps s.class_headers)))
                              (map-Each SameType same SameType-joins measure classified
                                measure-Keeps) in
                          properties-Attached s as_ measured
                            (Each-length SameType as_ measured whole ∙ len) whole
                            (measured-HasKind s.class_headers as5))))))
    where
      itself : (xs : List AggregateType) → Each SameType xs xs
      itself [] = tt
      itself (x ∷ xs) = (same x, itself xs)

-- For every buffer, every list of unit anchors and every order of going through the unordered maps,
-- the scan for aggregate types ends, reads inside the buffer only, and attaches fields, enumerators,
-- bases and properties inside the list of types only. The types lie one behind the other inside
-- the buffer, at the offset 0x420 or behind it, each with room for seven bytes and its name; every
-- index of the two maps by hash is that of a type; and each type that is no class has the kind that
-- fits what was attached: enumerators for an enumeration and for no other kind, fields for a
-- record, one of them packed if and only if the record is. No type is a set.
pub scan_aggregate_types-Returns :
    (visit : (A : Type 0) → List (ℕ × A) → List (ℕ × A)) (anchors : List ℕ) (buf : Bytes)
    → Returns
        (λ r.
          InRow (min 0x420 (length buf)) r.0 (length buf)
          × AreInside (length r.0) r.1
          × All HasKind r.0)
        (scan_aggregate_types visit anchors buf)
unfolding scan_aggregate_types
scan_aggregate_types-Returns visit anchors buf =
    let lo = min 0x420 (length buf) in
    Returns-bind (λ s. InRow lo s.aggregates (length buf))
      (λ r. InRow lo r.0 (length buf) × AreInside (length r.0) r.1 × All HasKind r.0)
      (scan_aggregates anchors buf) _ (scan_aggregates-InRow anchors buf)
      (λ s row.
        let n = length s.aggregates in
        let start : Indexes = record { by_hash = []; by_unit = [] } in
        let indexed = index_all 0 s.aggregates start in
        let chained = chain_all s.class_headers 0 s.aggregates indexed in
        let (inside, each) =
          chain_all-AreInside s.class_headers n 0 s.aggregates indexed (omega arith)
            (index_all-AreInside n 0 s.aggregates start (omega arith) (tt, tt)) in
        Returns-bind (Attached visit chained.0 n inside chained.1)
          (λ r. InRow lo r.0 (length buf) × AreInside (length r.0) r.1 × All HasKind r.0)
          (attach_all visit s chained.0 chained.1) _
          (attach_all-Attached visit chained.0 n inside s chained.1
            (Each-length SameType s.aggregates chained.1 each))
          (λ as_ (same_as, kinds).
            let long : length as_ ≡ n =
              Each-length SameType chained.1 as_ same_as
              ∙ Each-length SameType s.aggregates chained.1 each in
            (
              Each-InRow chained.1 as_ lo (length buf) same_as
                  (Each-InRow s.aggregates chained.1 lo (length buf) each row),
              rw long inside,
              kinds,
            )))
