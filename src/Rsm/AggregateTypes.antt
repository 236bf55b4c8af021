-- ===== src/Rsm/AggregateTypes.antt =====
-- src/rsm/rsm_reader.h: the types that a program declares, and src/rsm/rsm_aggregates.cpp: what waits
-- for its parent during the scan for them.
use vscode_delphi_extension.Base.{
  ℕ, not, ◌&&◌, ◌||◌, List, [], ◌∷◌, ◌++◌, ◌==◌, ltb, if◌then◌else◌, ℤ, Bytes,
}
use vscode_delphi_extension.Rsm.Lookup.{unit_anchor_for}

pub record FieldEntry : Type 0 where
  pub name : Bytes
  pub offset : ℕ
  pub primitive_marker : ℕ
  pub type_hash : ℕ
  pub storage : ℕ

pub record EnumEntry : Type 0 where
  pub name : Bytes
  pub ordinal : ℤ

pub record PropertyEntry : Type 0 where
  pub name : Bytes
  pub type_marker : ℕ

pub data AggregateKind : Type 0 where
  unknown_kind plain_record packed_record class_type enum_type set_type : AggregateKind

pub record AggregateType : Type 0 where
  pub name : Bytes
  pub own_hash : ℕ
  pub kind : AggregateKind
  pub fields : List FieldEntry
  pub enum_entries : List EnumEntry
  pub properties : List PropertyEntry
  pub base_hash : ℕ
  pub linked_hash : ℕ
  pub total_size : ℕ
  pub file_offset : ℕ
  pub unit_anchor_offset : ℕ

pub record ClassHeader : Type 0 where
  pub own_hash : ℕ
  pub base_hash : ℕ

-- A `std::map` by unit and parent, in the order of its keys.
unfoldable pub push_by_unit {ℓ} :
    {A : Type ℓ} → ℕ → ℕ → A → List ((ℕ × ℕ) × List A) → List ((ℕ × ℕ) × List A)
push_by_unit u h x [] = ((u, h), x ∷ []) ∷ []
push_by_unit u h x (((v, g), xs) ∷ m) =
    let later = push_by_unit u h x m in
    if u == v && h == g
    then ((v, g), xs ++ x ∷ []) ∷ m
    else if ltb u v || u == v && ltb h g
    then ((u, h), x ∷ []) ∷ ((v, g), xs) ∷ m
    else ((v, g), xs) ∷ later

-- A `std::unordered_map` by parent.
unfoldable pub push_by_hash {ℓ} : {A : Type ℓ} → ℕ → A → List (ℕ × List A) → List (ℕ × List A)
push_by_hash h x [] = (h, x ∷ []) ∷ []
push_by_hash h x ((g, xs) ∷ m) =
    let later = push_by_hash h x m in if h == g then (g, xs ++ x ∷ []) ∷ m else (g, xs) ∷ later

-- What waits for its parent, with a unit and without.
pub record Pending {ℓ} (A : Type ℓ) : Type ℓ where
  pub by_unit : List ((ℕ × ℕ) × List A)
  pub by_hash : List (ℕ × List A)

unfoldable pub push_pending {ℓ} : {A : Type ℓ} → List ℕ → ℕ → ℕ → A → Pending A → Pending A
unfolding push_by_unit push_by_hash
push_pending anchors i parent x p =
    let unit = unit_anchor_for anchors i in
    if not (unit == 0)
    then record p { by_unit = push_by_unit unit parent x p.by_unit }
    else record p { by_hash = push_by_hash parent x p.by_hash }

pub record Scanned : Type 0 where
  pub aggregates : List AggregateType
  pub fields : Pending FieldEntry
  pub enums : Pending EnumEntry
  pub properties : Pending PropertyEntry
  pub class_headers : List ClassHeader

abbrev pub nothing_pending {ℓ} : {A : Type ℓ} → Pending A
nothing_pending = record { by_unit = []; by_hash = [] }
