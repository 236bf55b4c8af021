-- ===== src/Rsm/Aggregates/Resolve.antt =====
-- src/rsm/rsm_aggregates.cpp, resolveAggregateTypes, with the lookups of src/rsm/rsm_reader.cpp that
-- it calls. `none` is an index outside the types.
use vscode_delphi_extension.Base.{
  ℕ, ◌≡◌, ◌≢◌, true, false, not, ◌||◌, Option, none, some, List, [], ◌∷◌, ◌==◌, if◌then◌else◌,
  ◌>>=◌, length, is_empty, get_elem?, find, nat_eq, pair_eq, ◌⊎◌,
}
use vscode_delphi_extension.Rsm.Types.{Variable, ProcedureRecord}
use vscode_delphi_extension.Rsm.Lookup.{unit_anchor_for}
use vscode_delphi_extension.Rsm.AggregateTypes.{AggregateType}
use vscode_delphi_extension.Rsm.Aggregates.Attach.{Indexes}
use vscode_delphi_extension.Rsm.Aggregates.Sound.{AreInside}

-- `some none` is a null pointer.
unfoldable pub type_at : List AggregateType → Option ℕ → Option (Option AggregateType)
type_at as_ none = some none
type_at as_ (some k) = do a ← get_elem? as_ k; some (some a)

unfoldable pub find_aggregate_by_hash :
    List AggregateType → Indexes → ℕ → Option (Option AggregateType)
unfolding type_at
find_aggregate_by_hash as_ ix h = type_at as_ (find h ix.by_hash)

unfoldable pub find_aggregate_in_unit :
    List AggregateType → Indexes → ℕ → ℕ → Option (Option AggregateType)
unfolding type_at
find_aggregate_in_unit as_ ix unit h =
    if unit == 0 then some none else type_at as_ (find (unit, h) ix.by_unit)

-- The type in the unit, and without one the type of any unit.
unfoldable pub type_of_hash : List AggregateType → Indexes → ℕ → ℕ → Option (Option AggregateType)
unfolding find_aggregate_by_hash find_aggregate_in_unit
type_of_hash as_ ix unit h = do
  own ← find_aggregate_in_unit as_ ix unit h
  elim own [ none ↦ find_aggregate_by_hash as_ ix h | some a ↦ some (some a) ]

unfoldable pub resolve_aggr_for : List AggregateType → Indexes → List ℕ → Variable → Option Variable
unfolding type_of_hash
resolve_aggr_for as_ ix anchors v =
    if v.is_primitive || v.inline_type_id == 0 || not (is_empty v.pascal_type) then some v else (do
      found ← type_of_hash as_ ix (unit_anchor_for anchors v.file_offset) v.inline_type_id
      some
          (elim found as (λ x. Variable) [ none ↦ v | some a ↦ record v { pascal_type = a.name } ]))

unfoldable pub resolve_each {ℓ} : {A : Type ℓ} → (A → Option A) → List A → Option (List A)
resolve_each f [] = some []
resolve_each f (x ∷ xs) = do y ← f x; ys ← resolve_each f xs; some (y ∷ ys)

unfoldable pub resolve_procedure :
    List AggregateType → Indexes → List ℕ → ProcedureRecord → Option ProcedureRecord
unfolding resolve_aggr_for resolve_each
resolve_procedure as_ ix anchors p = do
  params ← resolve_each (resolve_aggr_for as_ ix anchors) p.params
  locals ← resolve_each (resolve_aggr_for as_ ix anchors) p.locals
  some (record p { params = params; locals = locals })

unfoldable pub resolve_aggregate_types :
    List AggregateType
    → Indexes
    → List ℕ
    → List Variable
    → List ProcedureRecord
    → Option (List Variable × List ProcedureRecord)
unfolding resolve_procedure
resolve_aggregate_types as_ ix anchors variables procedures = do
  vs ← resolve_each (resolve_aggr_for as_ ix anchors) variables
  ps ← resolve_each (resolve_procedure as_ ix anchors) procedures
  some (vs, ps)

-- The indexes have no type for a hash in a unit; 0 is no unit.
abbrev pub IsForeign : Indexes → ℕ → ℕ → Type 0
IsForeign ix unit h = (unit ≡ 0) ⊎ (find (unit, h) ix.by_unit ≡ none)

-- The type for a hash in a unit: the type that the unit has for it, or else the one that any has.
abbrev pub IsTypeFor : List AggregateType → Indexes → ℕ → ℕ → Option AggregateType → Type 0
IsTypeFor as_ ix unit h none = IsForeign ix unit h × (find h ix.by_hash ≡ none)
IsTypeFor as_ ix unit h (some a) =
    (k : ℕ) × (get_elem? as_ k ≡ some a)
    × (((unit ≢ 0) × (find (unit, h) ix.by_unit ≡ some k))
        ⊎ (IsForeign ix unit h × (find h ix.by_hash ≡ some k)))

abbrev pub named_by : Variable → Option AggregateType → Variable
named_by v none = v
named_by v (some a) = record v { pascal_type = a.name }

-- A primitive, a variable without a type's hash and one with a name stay; another variable gets the
-- name of the type for its hash in its unit, if there is one.
abbrev pub IsNamed : List AggregateType → Indexes → List ℕ → Variable → Variable → Type 0
IsNamed as_ ix anchors v v' =
    (((v.is_primitive || v.inline_type_id == 0 || not (is_empty v.pascal_type)) ≡ true) × (v' ≡ v))
    ⊎ ((v.is_primitive ≡ false)
        × (v.inline_type_id ≢ 0)
        × (is_empty v.pascal_type ≡ true)
        × (r : Option AggregateType) × IsTypeFor as_ ix (unit_anchor_for anchors v.file_offset)
            v.inline_type_id r
        × (v' ≡ named_by v r))

abbrev pub Pairwise {ℓ} : {A : Type ℓ} → (A → A → Type 0) → List A → List A → Type 0
Pairwise R [] [] = Unit
Pairwise R (x ∷ xs) (y ∷ ys) = R x y × Pairwise R xs ys
Pairwise R [] (y ∷ ys) = ⊥
Pairwise R (x ∷ xs) [] = ⊥

pub record IsNamedProcedure (as_ : List AggregateType) (ix : Indexes) (anchors : List ℕ)
    (p p' : ProcedureRecord) : Type 0 where
  pub params_are : Pairwise (IsNamed as_ ix anchors) p.params p'.params
  pub locals_are : Pairwise (IsNamed as_ ix anchors) p.locals p'.locals
  pub rest_is : p' ≡ record p { params = p'.params; locals = p'.locals }

module _ (as_ : List AggregateType) (ix : Indexes) (anchors : List ℕ)
    (inside : AreInside (length as_) ix) where
  -- What an index leads to.
  abbrev IsAt : Option ℕ → Option AggregateType → Type 0
  IsAt o none = o ≡ none
  IsAt o (some a) = (k : ℕ) × (get_elem? as_ k ≡ some a) × (o ≡ some k)

  -- The type that the unit has, if any.
  abbrev IsOwn : ℕ → ℕ → Option AggregateType → Type 0
  IsOwn unit h none = IsForeign ix unit h
  IsOwn unit h (some a) =
      (unit ≢ 0) × (k : ℕ) × (get_elem? as_ k ≡ some a) × (find (unit, h) ix.by_unit ≡ some k)
