-- ===== src/Rsm/Aggregates/Sound.antt =====
-- What is attached to the types through the indexes, on every buffer: no index leaves the types.
use vscode_delphi_extension.Base.{
  ℕ, zero, suc, ◌+◌, ◌%◌, ◌^◌, ◌≤◌, ◌<◌, ◌≡◌, refl, ap, ◌∙◌, not, ◌&&◌, ◌||◌, Option, some, List,
  [], ◌∷◌, map, ◌==◌, if◌then◌else◌, length, Eq, find, assign, emplace, nat_eq, pair_eq, inl, inr,
  Returns, Returns-bind, Returns-map, arith, Bool-cases, Option-cases,
}
use vscode_delphi_extension.Rsm.AggregateTypes.{
  AggregateKind, class_type, AggregateType, ClassHeader,
}
use vscode_delphi_extension.Rsm.Aggregates.Attach.{
  Indexes, alias, index_one, index_all, is_class_hash, class_by_low, chain_one, chain_all,
  modify_at, attach, field_parent,
}
use vscode_delphi_extension.Rsm.Aggregates.Order.{InRow}

-- The indexes of a map lie below a bound.
module _ {ℓ} {K : Type ℓ} ⦃e : Eq K⦄ (n : ℕ) where
  abbrev Below : List (K × ℕ) → Type 0
  Below [] = Unit
  Below ((k, v) ∷ m) = (v < n) × Below m

  Below-assign : (k : K) (v : ℕ) (m : List (K × ℕ)) → v < n → Below m → Below (assign k v m)
  unfolding assign
  Below-assign k v [] h hs = (h, tt)
  Below-assign k v ((j, w) ∷ m) h (hw, hs) = elim (Bool-cases (e.beq j k)) [
    | inl x ↦ rw x (h, hs)
    | inr x ↦ rw x (hw, Below-assign k v m h hs)
  ]

  Below-emplace : (k : K) (v : ℕ) (m : List (K × ℕ)) → v < n → Below m → Below (emplace k v m)
  unfolding emplace
  Below-emplace k v [] h hs = (h, tt)
  Below-emplace k v ((j, w) ∷ m) h (hw, hs) = elim (Bool-cases (e.beq j k)) [
    | inl x ↦ rw x (hw, hs)
    | inr x ↦ rw x (hw, Below-emplace k v m h hs)
  ]

  pub find-Below : (k : K) (v : ℕ) (m : List (K × ℕ)) → Below m → find k m ≡ some v → v < n
  unfolding find
  find-Below k v [] hs x = absurd (ground arith)
  find-Below k v ((j, w) ∷ m) (hw, hs) x = ground (arith, find-Below k v m hs)

abbrev pub AreInside : ℕ → Indexes → Type 0
AreInside n ix = Below ⦃e = nat_eq⦄ n ix.by_hash × Below ⦃e = pair_eq⦄ n ix.by_unit

alias-AreInside :
    (n unit h k : ℕ) (ix : Indexes) → k < n → AreInside n ix → AreInside n (alias unit h k ix)
alias-AreInside n unit h k ix small (hs, us) = (
  Below-emplace n h k ix.by_hash small hs,
  elim (Bool-cases (unit == 0)) [
    | inl e ↦ rw e us
    | inr e ↦ rw e (Below-emplace n (unit, h) k ix.by_unit small us)
  ],
)

index_one-AreInside :
    (n k : ℕ) (a : AggregateType) (ix : Indexes)
    → k < n
    → AreInside n ix
    → AreInside n (index_one k a ix)
unfolding index_one
index_one-AreInside n k a ix small (hs, us) =
    let own : Indexes = record {
      by_hash = assign a.own_hash k ix.by_hash;
      by_unit =
          if a.unit_anchor_offset == 0
          then ix.by_unit
          else assign (a.unit_anchor_offset, a.own_hash) k ix.by_unit;
    } in
    let own_inside : AreInside n own = (
      Below-assign n a.own_hash k ix.by_hash small hs,
      elim (Bool-cases (a.unit_anchor_offset == 0)) [
        | inl e ↦ rw e us
        | inr e ↦ rw e (Below-assign n (a.unit_anchor_offset, a.own_hash) k ix.by_unit small us)
      ],
    ) in
    elim (Bool-cases (not (a.linked_hash == 0) && not (a.linked_hash == a.own_hash))) [
      | inl e ↦ rw e (alias-AreInside n a.unit_anchor_offset a.linked_hash k own small own_inside)
      | inr e ↦ rw e own_inside
    ]

pub index_all-AreInside :
    (n k : ℕ) (as_ : List AggregateType) (ix : Indexes)
    → k + length as_ ≤ n
    → AreInside n ix
    → AreInside n (index_all k as_ ix)
unfolding index_all
index_all-AreInside n k [] ix small h = h
index_all-AreInside n k (a ∷ as_) ix small h =
    index_all-AreInside n (suc k) as_ (index_one k a ix) (omega arith)
      (index_one-AreInside n k a ix (omega arith) h)

-- What no step changes of a type.
pub record SameType (a b : AggregateType) : Type 0 where
  pub name : b.name ≡ a.name
  pub own_hash : b.own_hash ≡ a.own_hash
  pub linked_hash : b.linked_hash ≡ a.linked_hash
  pub file_offset : b.file_offset ≡ a.file_offset
  pub unit_anchor_offset : b.unit_anchor_offset ≡ a.unit_anchor_offset

abbrev pub same : (a : AggregateType) → SameType a a
same a = record {
  name = refl;
  own_hash = refl;
  linked_hash = refl;
  file_offset = refl;
  unit_anchor_offset = refl;
}

abbrev same_kind : (a : AggregateType) (k : AggregateKind) → SameType a (record a { kind = k })
same_kind a k = record {
  name = refl;
  own_hash = refl;
  linked_hash = refl;
  file_offset = refl;
  unit_anchor_offset = refl;
}

abbrev pub Each :
    (AggregateType → AggregateType → Type 0) → List AggregateType → List AggregateType → Type 0
Each R [] [] = Unit
Each R (a ∷ as_) (b ∷ bs) = R a b × Each R as_ bs
Each R [] (b ∷ bs) = ⊥
Each R (a ∷ as_) [] = ⊥

chain_one-AreInside :
    (headers : List ClassHeader) (n k : ℕ) (a : AggregateType) (ix : Indexes)
    → k < n
    → AreInside n ix
    → AreInside n (chain_one headers k a ix).0 × SameType a (chain_one headers k a ix).1
unfolding chain_one
chain_one-AreInside headers n k a ix small h =
    let cls_own = class_by_low (a.linked_hash % 2 ^ 8) 0 headers in
    let ix1 = alias a.unit_anchor_offset (field_parent a.linked_hash) k ix in
    let inside1 =
      alias-AreInside n a.unit_anchor_offset (field_parent a.linked_hash) k ix small h in
    elim (Bool-cases (a.linked_hash == 0 || a.unit_anchor_offset == 0)) [
      | inl e ↦ rw e (h, same a)
      | inr e0 ↦ rw e0 (elim (Bool-cases (is_class_hash headers a.linked_hash)) [
        | inl e ↦ rw e (inside1, same_kind a class_type)
        | inr e1 ↦ rw e1 (elim (Bool-cases (cls_own == 0)) [
          | inl e ↦ rw e (inside1, same a)
          | inr e ↦ rw e (
            alias-AreInside n a.unit_anchor_offset cls_own k ix1 small inside1,
            same_kind a class_type,
          )
        ])
      ])
    ]

pub chain_all-AreInside :
    (headers : List ClassHeader) (n k : ℕ) (as_ : List AggregateType) (ix : Indexes)
    → k + length as_ ≤ n
    → AreInside n ix
    → AreInside n (chain_all headers k as_ ix).0 × Each SameType as_ (chain_all headers k as_ ix).1
unfolding chain_all
chain_all-AreInside headers n k [] ix small h = (h, tt)
chain_all-AreInside headers n k (a ∷ as_) ix small h =
    let (inside1, same1) = chain_one-AreInside headers n k a ix (omega arith) h in
    let (inside2, each) =
      chain_all-AreInside headers n (suc k) as_ (chain_one headers k a ix).0 (omega arith)
        inside1 in
    (inside2, (same1, each))

pub Each-length :
    (R : AggregateType → AggregateType → Type 0) (as_ bs : List AggregateType)
    → Each R as_ bs
    → length bs ≡ length as_
Each-length R [] [] h = refl
Each-length R (a ∷ as_) (b ∷ bs) (h, hs) = ap suc (Each-length R as_ bs hs)
Each-length R [] (b ∷ bs) h = elim h [ ]
Each-length R (a ∷ as_) [] h = elim h [ ]

-- A relation that each change keeps is kept by the loops.
module _ (R : AggregateType → AggregateType → Type 0) (stays : (a : AggregateType) → R a a)
    (joins : (a b d : AggregateType) → R a b → R b d → R a d) where
  Each-stays : (as_ : List AggregateType) → Each R as_ as_
  Each-stays [] = tt
  Each-stays (a ∷ as_) = (stays a, Each-stays as_)

  pub Each-joins : (as_ bs ds : List AggregateType) → Each R as_ bs → Each R bs ds → Each R as_ ds
  Each-joins [] [] [] h k = tt
  Each-joins (a ∷ as_) (b ∷ bs) (d ∷ ds) (h, hs) (k, ks) =
      (joins a b d h k, Each-joins as_ bs ds hs ks)
  Each-joins [] (b ∷ bs) ds h k = elim h [ ]
  Each-joins (a ∷ as_) [] ds h k = elim h [ ]
  Each-joins [] [] (d ∷ ds) h k = elim k [ ]
  Each-joins (a ∷ as_) (b ∷ bs) [] h k = elim k [ ]

  modify_at-Each :
      (k : ℕ) (f : AggregateType → AggregateType) (as_ : List AggregateType)
      → ((a : AggregateType) → R a (f a))
      → k < length as_
      → Returns (Each R as_) (modify_at k f as_)
  unfolding modify_at
  modify_at-Each k f [] keeps h = absurd (omega arith)
  modify_at-Each zero f (a ∷ as_) keeps h = (keeps a, Each-stays as_)
  modify_at-Each (suc k) f (a ∷ as_) keeps h =
      Returns-bind (Each R as_) (Each R (a ∷ as_)) (modify_at k f as_) _
        (modify_at-Each k f as_ keeps (omega arith)) (λ more m. (stays a, m))

  pub attach-Each {ℓ κ} :
      {K : Type ℓ} {A : Type κ} (n : ℕ) (lookup : K → Option ℕ)
      (put : A → AggregateType → AggregateType) (m : List (K × A)) (as_ : List AggregateType)
      → ((v : A) (a : AggregateType) → R a (put v a))
      → ((k : K) (j : ℕ) → lookup k ≡ some j → j < n)
      → length as_ ≡ n
      → Returns (Each R as_) (attach lookup put m as_)
  unfolding attach
  attach-Each n lookup put [] as_ keeps small len = Each-stays as_
  attach-Each n lookup put ((k, v) ∷ m) as_ keeps small len = elim (Option-cases (lookup k)) [
    | inl e ↦ rw (e, attach) (attach-Each n lookup put m as_ keeps small len)
    | inr (j, e) ↦
        rw (e, attach)
          (Returns-bind (Each R as_) (Each R as_) (modify_at j (put v) as_) _
            (modify_at-Each j (put v) as_ (keeps v) (omega (arith, small k j e)))
            (λ changed c.
              Returns-map (Each R changed) (Each R as_) (attach lookup put m changed)
                (λ bs b. Each-joins as_ changed bs c b)
                (attach-Each n lookup put m changed keeps small
                  (Each-length R as_ changed c ∙ len))))
  ]

  pub map-Each :
      (f : AggregateType → AggregateType) (as_ : List AggregateType)
      → ((a : AggregateType) → R a (f a))
      → Each R as_ (map f as_)
  map-Each f [] keeps = tt
  map-Each f (a ∷ as_) keeps = (keeps a, map-Each f as_ keeps)

pub SameType-joins : (a b d : AggregateType) → SameType a b → SameType b d → SameType a d
SameType-joins a b d h k = record {
  name = k.name ∙ h.name;
  own_hash = k.own_hash ∙ h.own_hash;
  linked_hash = k.linked_hash ∙ h.linked_hash;
  file_offset = k.file_offset ∙ h.file_offset;
  unit_anchor_offset = k.unit_anchor_offset ∙ h.unit_anchor_offset;
}

pub Each-InRow :
    (as_ bs : List AggregateType) (lo hi : ℕ)
    → Each SameType as_ bs
    → InRow lo as_ hi
    → InRow lo bs hi
Each-InRow [] [] lo hi h row = row
Each-InRow (a ∷ as_) (b ∷ bs) lo hi (h, hs) (first, rest) =
    rw (h.file_offset, h.name) (first, Each-InRow as_ bs _ hi hs rest)
Each-InRow [] (b ∷ bs) lo hi h row = elim h [ ]
Each-InRow (a ∷ as_) [] lo hi h row = elim h [ ]
