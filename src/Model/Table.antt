-- ===== src/Model/Table.antt =====
-- Ids stay valid as the table of types grows.
use vscode_delphi_extension.Base.{
  ℕ, zero, suc, ◌+◌, ◌-◌, ◌^◌, ◌<◌, ◌≤◌, ◌≡◌, refl, none, some, List, [], ◌∷◌, ◌++◌, length,
  length-append, get_elem?, arith,
}
use vscode_delphi_extension.Model.{Module, TypeKind, TypeId, add_type, get_type}

pub get_elem?-append_end {ℓ} :
    {A : Type ℓ} (xs : List A) (x : A) → get_elem? (xs ++ (x ∷ [])) (length xs) ≡ some x
get_elem?-append_end [] x = refl
get_elem?-append_end (y ∷ xs) x = get_elem?-append_end xs x

get_elem?-append_front {ℓ} :
    {A : Type ℓ} (xs ys : List A) (i : ℕ) → i < length xs → get_elem? (xs ++ ys) i ≡ get_elem? xs i
get_elem?-append_front [] ys i h = absurd (omega arith)
get_elem?-append_front (x ∷ xs) ys zero h = refl
get_elem?-append_front (x ∷ xs) ys (suc i) h = get_elem?-append_front xs ys i (omega arith)

-- Below 2^32 - 1 types, also in an empty table, the id that `add_type` returns is no id of the table
-- before and leads to the type that was added, and each id up to the old size, 0 included, leads
-- where it led before.
pub get_type-add_type :
    (m : Module) (t : TypeKind) (id : TypeId)
    → length m.types + 1 < 2 ^ 32
    → id ≤ length m.types
    → (get_type m (add_type m t).1 ≡ none)
      × (get_type (add_type m t).0 (add_type m t).1 ≡ some t)
      × (get_type (add_type m t).0 id ≡ get_type m id)
unfolding get_type add_type
get_type-add_type m t id h old =
    let long = length-append m.types (t ∷ []) in
    (
      ground (arith, long),
      ground (arith, long, get_elem?-append_end m.types t),
      ground (arith, long, get_elem?-append_front m.types (t ∷ []) (id - 1)),
    )
