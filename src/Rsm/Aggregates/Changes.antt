-- ===== src/Rsm/Aggregates/Changes.antt =====
-- What each change of a type leaves as it is, and the kind that fits what is attached to it.
use vscode_delphi_extension.Base.{
  ◌≡◌, refl, ◌∙◌, true, false, not, ◌&&◌, ◌||◌, List, [], ◌∷◌, map, All, ◌==◌, is_empty, find,
  nat_eq, pair_eq, inl, inr, Bool-cases, Option-cases,
}
use vscode_delphi_extension.Rsm.AggregateTypes.{
  FieldEntry, EnumEntry, PropertyEntry, AggregateKind, unknown_kind, plain_record, packed_record,
  class_type, enum_type, set_type, AggregateType, ClassHeader,
}
use vscode_delphi_extension.Rsm.Aggregates.Attach.{
  Indexes, is_class_hash, put_fields, fill_fields, put_enums, fill_enums, add_properties, put_base,
  any_packed, kind_of, classify, measure,
}
use vscode_delphi_extension.Rsm.Aggregates.Sound.{SameType, same, Each, SameType-joins}

-- The kind fits what is attached. A set is never found.
abbrev pub FitsKind : List FieldEntry → List EnumEntry → AggregateKind → Type 0
FitsKind fields enums unknown_kind = (is_empty fields ≡ true) × (is_empty enums ≡ true)
FitsKind fields enums plain_record =
    (is_empty fields ≡ false) × (any_packed fields ≡ false) × (is_empty enums ≡ true)
FitsKind fields enums packed_record = (any_packed fields ≡ true) × (is_empty enums ≡ true)
FitsKind fields enums class_type = Unit
FitsKind fields enums enum_type = is_empty enums ≡ false
FitsKind fields enums set_type = ⊥

abbrev pub HasKind : AggregateType → Type 0
HasKind a = FitsKind a.fields a.enum_entries a.kind

kind_of-FitsKind :
    (headers : List ClassHeader) (a : AggregateType)
    → FitsKind a.fields a.enum_entries (kind_of headers a)
unfolding kind_of
kind_of-FitsKind headers a = elim (Bool-cases (is_empty a.enum_entries)) [
  | inr e ↦ rw e e
  | inl e0 ↦
      rw e0
        (elim (Bool-cases (
          is_class_hash headers a.own_hash
          || not (a.linked_hash == 0) && is_class_hash headers a.linked_hash)) [
            | inl e ↦ rw e tt
            | inr e1 ↦ rw e1 (elim (Bool-cases (any_packed a.fields)) [
              | inl e ↦ rw e (e, e0)
              | inr e2 ↦ rw e2 (elim (Bool-cases (is_empty a.fields)) [
                | inl e ↦ rw e (e, e0)
                | inr e ↦ rw e (e, e2, e0)
              ])
            ])
          ])
]

classify-HasKind : (headers : List ClassHeader) (a : AggregateType) → HasKind (classify headers a)
unfolding classify
classify-HasKind headers a = go a.kind refl
  where
    classified : AggregateKind → AggregateType
    classified k = elim k as (λ x. AggregateType) [
      | class_type ↦ a
      | unknown_kind ↦ record a { kind = kind_of headers a }
      | plain_record ↦ record a { kind = kind_of headers a }
      | packed_record ↦ record a { kind = kind_of headers a }
      | enum_type ↦ record a { kind = kind_of headers a }
      | set_type ↦ record a { kind = kind_of headers a }
    ]

    go : (k : AggregateKind) → a.kind ≡ k → HasKind (classified k)
    go class_type e = rw e tt
    go unknown_kind e = kind_of-FitsKind headers a
    go plain_record e = kind_of-FitsKind headers a
    go packed_record e = kind_of-FitsKind headers a
    go enum_type e = kind_of-FitsKind headers a
    go set_type e = kind_of-FitsKind headers a

pub measured-HasKind :
    (headers : List ClassHeader) (as_ : List AggregateType)
    → All HasKind (map measure (map (classify headers) as_))
unfolding measure
measured-HasKind headers [] = tt
measured-HasKind headers (a ∷ as_) = (classify-HasKind headers a, measured-HasKind headers as_)

-- Properties change no kind.
pub record SameShown (a b : AggregateType) : Type 0 where
  pub is_same : SameType a b
  pub kind : b.kind ≡ a.kind
  pub fields : b.fields ≡ a.fields
  pub enum_entries : b.enum_entries ≡ a.enum_entries

pub shown : (a : AggregateType) → SameShown a a
shown a = record { is_same = same a; kind = refl; fields = refl; enum_entries = refl }

pub SameShown-joins : (a b d : AggregateType) → SameShown a b → SameShown b d → SameShown a d
SameShown-joins a b d h k = record {
  is_same = SameType-joins a b d h.is_same k.is_same;
  kind = k.kind ∙ h.kind;
  fields = k.fields ∙ h.fields;
  enum_entries = k.enum_entries ∙ h.enum_entries;
}

pub Each-HasKind :
    (as_ bs : List AggregateType) → Each SameShown as_ bs → All HasKind as_ → All HasKind bs
Each-HasKind [] [] h k = tt
Each-HasKind (a ∷ as_) (b ∷ bs) (h, hs) (k, ks) =
    (rw (h.fields, h.enum_entries, h.kind) k, Each-HasKind as_ bs hs ks)
Each-HasKind [] (b ∷ bs) h k = elim h [ ]
Each-HasKind (a ∷ as_) [] h k = elim h [ ]

pub Each-SameType : (as_ bs : List AggregateType) → Each SameShown as_ bs → Each SameType as_ bs
Each-SameType [] [] h = tt
Each-SameType (a ∷ as_) (b ∷ bs) (h, hs) = (h.is_same, Each-SameType as_ bs hs)
Each-SameType [] (b ∷ bs) h = elim h [ ]
Each-SameType (a ∷ as_) [] h = elim h [ ]

-- Each change keeps what a type is.
abbrev Keeps : (AggregateType → AggregateType) → Type 0
Keeps f = (a : AggregateType) → SameType a (f a)

pub put_fields-Keeps : (v : List FieldEntry) → Keeps (put_fields v)
put_fields-Keeps v a = record {
  name = refl;
  own_hash = refl;
  linked_hash = refl;
  file_offset = refl;
  unit_anchor_offset = refl;
}

pub put_enums-Keeps : (v : List EnumEntry) → Keeps (put_enums v)
put_enums-Keeps v a = record {
  name = refl;
  own_hash = refl;
  linked_hash = refl;
  file_offset = refl;
  unit_anchor_offset = refl;
}

pub fill_fields-Keeps : (v : List FieldEntry) → Keeps (fill_fields v)
fill_fields-Keeps v a = elim (Bool-cases (is_empty a.fields)) [
  | inl e ↦ rw e (put_fields-Keeps v a)
  | inr e ↦ rw e (same a)
]

pub fill_enums-Keeps : (v : List EnumEntry) → Keeps (fill_enums v)
fill_enums-Keeps v a = elim (Bool-cases (is_empty a.enum_entries)) [
  | inl e ↦ rw e (put_enums-Keeps v a)
  | inr e ↦ rw e (same a)
]

pub put_base-Keeps : (ix : Indexes) (ch : ClassHeader) → Keeps (put_base ix ch)
unfolding put_base
put_base-Keeps ix ch a = elim (Bool-cases (ch.base_hash == 0)) [
  | inl e ↦ rw e (same a)
  | inr e0 ↦ rw e0 (elim (Option-cases (find ch.base_hash ix.by_hash)) [
    | inl e ↦ rw e (same a)
    | inr (k, e) ↦ rw e (record {
      name = refl;
      own_hash = refl;
      linked_hash = refl;
      file_offset = refl;
      unit_anchor_offset = refl;
    })
  ])
]

pub add_properties-SameShown :
    (v : List PropertyEntry) (a : AggregateType) → SameShown a (add_properties v a)
add_properties-SameShown v a = record {
  is_same = record {
    name = refl;
    own_hash = refl;
    linked_hash = refl;
    file_offset = refl;
    unit_anchor_offset = refl;
  };
  kind = refl;
  fields = refl;
  enum_entries = refl;
}

pub classify-Keeps : (headers : List ClassHeader) → Keeps (classify headers)
unfolding classify
classify-Keeps headers a = go a.kind
  where
    again : SameType a (record a { kind = kind_of headers a })
    again = record {
      name = refl;
      own_hash = refl;
      linked_hash = refl;
      file_offset = refl;
      unit_anchor_offset = refl;
    }

    go :
        (k : AggregateKind)
        → SameType a (elim k as (λ x. AggregateType) [
          | class_type ↦ a
          | unknown_kind ↦ record a { kind = kind_of headers a }
          | plain_record ↦ record a { kind = kind_of headers a }
          | packed_record ↦ record a { kind = kind_of headers a }
          | enum_type ↦ record a { kind = kind_of headers a }
          | set_type ↦ record a { kind = kind_of headers a }
        ])
    go class_type = same a
    go unknown_kind = again
    go plain_record = again
    go packed_record = again
    go enum_type = again
    go set_type = again

pub measure-Keeps : Keeps measure
unfolding measure
measure-Keeps a = record {
  name = refl;
  own_hash = refl;
  linked_hash = refl;
  file_offset = refl;
  unit_anchor_offset = refl;
}
