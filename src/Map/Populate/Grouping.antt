-- ===== src/Map/Populate/Grouping.antt =====
-- The groups of tables by module, and the maps of vectors behind them.
use vscode_delphi_extension.Base.{
  ◌≡◌, refl, sym, ◌∙◌, ap, Bool, true, false, ◌||◌, Option, none, some, List, [], ◌∷◌, ◌++◌, ◌↔◌,
  if◌then◌else◌, Bytes, beq_bytes, beq_list_iff, nat_eq, list_eq, find, find-assign, arith,
  Bool-cases, inl, inr, Option-cases, is_empty,
}
use vscode_delphi_extension.Map.Types.{LineTable}
use vscode_delphi_extension.Map.Populate.{is_in, push_back, Groups, group_table, group_tables}

pub beq_bytes_iff : (a b : Bytes) → (beq_bytes a b ≡ true) ↔ (a ≡ b)
beq_bytes_iff a b = beq_list_iff a b

-- A vector with one element more.
abbrev pub with_last {ℓ} : {V : Type ℓ} → Option (List V) → V → List V
with_last none v = v ∷ []
with_last (some vs) v = vs ++ v ∷ []

pub find-push_back {ℓ} :
    {V : Type ℓ} (j k : Bytes) (v : V) (m : List (Bytes × List V))
    → find j (push_back k v m) ≡ (if beq_bytes k j then some (with_last (find k m) v) else find j m)
unfolding push_back
find-push_back j k v m = elim (Option-cases (find k m)) [
  | inl e ↦ rw (e, push_back) (find-assign j k (v ∷ []) m)
  | inr (vs, e) ↦ rw (e, push_back) (find-assign j k (vs ++ v ∷ []) m)
]

abbrev pub has {ℓ} : {A : Type ℓ} → Option A → Bool
has none = false
has (some a) = true

-- No element twice.
abbrev pub Distinct : List Bytes → Type 0
Distinct [] = Unit
Distinct (x ∷ xs) = (is_in x xs ≡ false) × Distinct xs

pub is_in-append :
    (x : Bytes) (ys : List Bytes) (y : Bytes)
    → is_in x (ys ++ y ∷ []) ≡ (is_in x ys || beq_bytes y x)
unfolding is_in
is_in-append x [] y = ground arith
is_in-append x (z ∷ zs) y = ground (arith, is_in-append x zs y)

pub Distinct-append :
    (xs : List Bytes) (y : Bytes) → Distinct xs → is_in y xs ≡ false → Distinct (xs ++ y ∷ [])
unfolding is_in
Distinct-append [] y d absent = (refl, tt)
Distinct-append (x ∷ xs) y (new, d) absent = (
  ground (arith, is_in-append x xs y, beq_bytes_iff x y, beq_bytes_iff y x),
  Distinct-append xs y d (ground arith),
)

-- Every module of the order has a vector, each once, and no vector is empty.
pub record IsGrouped (g : Groups) : Type 0 where
  pub listed : (j : Bytes) → is_in j g.module_order ≡ has (find j g.lts_by_module)
  pub distinct : Distinct g.module_order
  pub filled :
      (j : Bytes) (ts : List LineTable) → find j g.lts_by_module ≡ some ts → is_empty ts ≡ false

module _ (g : Groups) (lt : LineTable) (h : IsGrouped g) where
  abbrev grown : List Bytes → Groups
  grown order = record {
    lts_by_module = push_back lt.module_name lt g.lts_by_module;
    module_order = order;
  }

  filled_after :
      (order : List Bytes) (j : Bytes) (ts : List LineTable)
      → find j (grown order).lts_by_module ≡ some ts
      → is_empty ts ≡ false
  filled_after order j ts e =
      let found : find j (grown order).lts_by_module ≡ (
          if beq_bytes lt.module_name j
          then some (with_last (find lt.module_name g.lts_by_module) lt)
          else find j g.lts_by_module) =
        find-push_back j lt.module_name lt g.lts_by_module in
      elim (Bool-cases (beq_bytes lt.module_name j)) [
        | inl same ↦ ends (find lt.module_name g.lts_by_module) ts (sym (rw same at found) ∙ e)
        | inr other ↦ h.filled j ts (sym (rw other at found) ∙ e)
      ]
    where
      ends :
          (o : Option (List LineTable)) (ts : List LineTable)
          → some (with_last o lt) ≡ some ts
          → is_empty ts ≡ false
      ends none ts e = ground (arith, e)
      ends (some []) ts e = ground (arith, e)
      ends (some (x ∷ xs)) ts e = ground (arith, e)

  group_table-new :
      find lt.module_name g.lts_by_module ≡ none
      → IsGrouped (grown (g.module_order ++ lt.module_name ∷ []))
  group_table-new e = record {
    listed = λ j. ground (
      arith,
      is_in-append j g.module_order lt.module_name,
      find-push_back j lt.module_name lt g.lts_by_module,
      h.listed j,
    );
    distinct =
        Distinct-append g.module_order lt.module_name h.distinct
          (h.listed lt.module_name ∙ ap has e);
    filled = filled_after (g.module_order ++ lt.module_name ∷ []);
  }

  group_table-again :
      (ts0 : List LineTable)
      → find lt.module_name g.lts_by_module ≡ some ts0
      → IsGrouped (grown g.module_order)
  group_table-again ts0 e = record {
    listed = λ j. ground (
      arith,
      find-push_back j lt.module_name lt g.lts_by_module,
      beq_bytes_iff lt.module_name j,
      h.listed j,
      h.listed lt.module_name,
      e,
    );
    distinct = h.distinct;
    filled = filled_after g.module_order;
  }

  pub group_table-IsGrouped : IsGrouped (group_table g lt)
  unfolding group_table
  group_table-IsGrouped = elim (Option-cases (find lt.module_name g.lts_by_module)) [
    | inl e ↦ rw (e, group_table) (group_table-new e)
    | inr (ts0, e) ↦ rw (e, group_table) (group_table-again ts0 e)
  ]

pub group_tables-IsGrouped :
    (g : Groups) (lts : List LineTable) → IsGrouped g → IsGrouped (group_tables g lts)
unfolding group_tables
group_tables-IsGrouped g [] h = h
group_tables-IsGrouped g (lt ∷ lts) h =
    group_tables-IsGrouped (group_table g lt) lts (group_table-IsGrouped g lt h)
