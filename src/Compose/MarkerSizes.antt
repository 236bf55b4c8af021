-- ===== src/Compose/MarkerSizes.antt =====
-- src/compose/frame.cpp, `buildMarkerSizes`: the size that a type marker stands for, from the gaps
-- between the addresses of global variables.
pub mod Order
pub mod Agreement
use vscode_delphi_extension.Base.{
  ℕ, ◌-◌, Bool, true, false, not, ◌&&◌, ◌||◌, Option, none, some, List, [], ◌∷◌, ltb, leb, ◌==◌,
  if◌then◌else◌, find, emplace, nat_eq,
}
use vscode_delphi_extension.Rsm.Types.{Variable}

-- `std::sort`, `std::unique` and `std::upper_bound` (the first element above the value).
insert : ℕ → List ℕ → List ℕ
insert a [] = a ∷ []
insert a (x ∷ xs) = if leb a x then a ∷ x ∷ xs else x ∷ insert a xs

unfoldable pub sort : List ℕ → List ℕ
unfolding insert
sort [] = []
sort (x ∷ xs) = insert x (sort xs)

unfoldable pub unique : List ℕ → List ℕ
unique [] = []
unique (x ∷ []) = x ∷ []
unique (x ∷ y ∷ xs) = let rest = unique (y ∷ xs) in if x == y then rest else x ∷ rest

unfoldable pub upper_bound : List ℕ → ℕ → Option ℕ
upper_bound [] v = none
upper_bound (x ∷ xs) v = if ltb v x then some x else upper_bound xs v

abbrev pub is_global : Variable → Bool
is_global v = v.is_primitive && not (v.address == 0)

abbrev pub addresses : List Variable → List ℕ
addresses [] = []
addresses (v ∷ vs) = let rest = addresses vs in if is_global v then v.address ∷ rest else rest

-- The gap to the next symbol, if the loop's guards let it through.
unfoldable pub usable_gap : List ℕ → Variable → Option ℕ
unfolding upper_bound
usable_gap all_vas v = if not (is_global v) then none else elim (upper_bound all_vas v.address) [
  | none ↦ none
  | some next ↦ let gap = next - v.address in if gap == 0 || ltb 16 gap then none else some gap
]

pub record Sizes : Type 0 where
  pub result : List (ℕ × ℕ)
  pub conflicting : List ℕ

-- `emplace`, and what the loop does with its answer.
unfoldable pub add_gap : Sizes → ℕ → ℕ → Sizes
add_gap s marker size = elim (find marker s.result) [
  | none ↦ record s { result = emplace marker size s.result }
  | some hit ↦ if not (hit == size) then record s { conflicting = marker ∷ s.conflicting } else s
]

unfoldable pub collect : List ℕ → List Variable → Sizes → Sizes
collect all_vas [] s = s
collect all_vas (v ∷ vs) s =
    collect all_vas vs
      (elim (usable_gap all_vas v) [ none ↦ s | some size ↦ add_gap s v.type_marker size ])

-- `result.erase(m)`.
unfoldable pub erase : ℕ → List (ℕ × ℕ) → List (ℕ × ℕ)
erase k [] = []
erase k ((j, v) ∷ m) = let rest = erase k m in if j == k then rest else (j, v) ∷ rest

unfoldable pub erase_all : List ℕ → List (ℕ × ℕ) → List (ℕ × ℕ)
erase_all [] m = m
erase_all (k ∷ ks) m = erase_all ks (erase k m)

unfoldable pub build_marker_sizes : List Variable → List (ℕ × ℕ)
build_marker_sizes variables =
    let all_vas = unique (sort (addresses variables)) in
    let s = collect all_vas variables (record { result = []; conflicting = [] }) in
    erase_all s.conflicting s.result
