-- ===== src/Compose/MarkerSizes/Agreement.antt =====
-- A marker gets a size exactly when all usable gaps of its variables agree.
use vscode_delphi_extension.Base.{
  ℕ, ◌≡◌, refl, ◌∙◌, Bool, true, false, not, ◌&&◌, ◌||◌, Option, none, some, List, [], ◌∷◌, ◌==◌,
  if◌then◌else◌, find, find-emplace, nat_eq, arith, Option-cases, Bool-cases, inl, inr, ==_iff,
}
use vscode_delphi_extension.Rsm.Types.{Variable}
use vscode_delphi_extension.Compose.MarkerSizes.{
  sort, unique, addresses, usable_gap, Sizes, add_gap, collect, erase, erase_all,
  build_marker_sizes,
}

-- The usable gaps of the variables with marker `m`.
abbrev pub gaps : List ℕ → ℕ → List Variable → List ℕ
gaps all_vas m [] = []
gaps all_vas m (v ∷ vs) =
    let rest = gaps all_vas m vs in
    if v.type_marker == m
    then (elim (usable_gap all_vas v) [ none ↦ rest | some g ↦ g ∷ rest ])
    else rest

abbrev pub all_equal : ℕ → List ℕ → Bool
all_equal g [] = true
all_equal g (x ∷ xs) = x == g && all_equal g xs

-- The value that all elements of a list have.
abbrev pub agreed : List ℕ → Option ℕ
agreed [] = none
agreed (g ∷ gs) = if all_equal g gs then some g else none

abbrev mem : ℕ → List ℕ → Bool
mem k [] = false
mem k (x ∷ xs) = x == k || mem k xs

-- What the loop's state says of one marker: the size kept for it, and whether it conflicts.
module _ (m : ℕ) where
  abbrev View : Sizes → Option ℕ → Bool → Type 0
  View s kept bad = (find m s.result ≡ kept) × (mem m s.conflicting ≡ bad)

  abbrev outcome : Option ℕ → Bool → List ℕ → Option ℕ
  outcome none bad gs = if bad then none else agreed gs
  outcome (some g) bad gs = if bad then none else if all_equal g gs then some g else none

  find-erase : (k : ℕ) (r : List (ℕ × ℕ)) → find m (erase k r) ≡ (if k == m then none else find m r)
  unfolding find erase
  find-erase k [] = ground arith
  find-erase k ((j, v) ∷ r) = ground (arith, find-erase k r)

  find-erase_all :
      (ks : List ℕ) (r : List (ℕ × ℕ))
      → find m (erase_all ks r) ≡ (if mem m ks then none else find m r)
  unfolding erase_all
  find-erase_all [] r = refl
  find-erase_all (k ∷ ks) r = ground (arith, find-erase_all ks (erase k r), find-erase k r)

  add_gap-other :
      (s : Sizes) (k size : ℕ) (kept : Option ℕ) (bad : Bool)
      → (k == m) ≡ false
      → View s kept bad
      → View (add_gap s k size) kept bad
  unfolding add_gap
  add_gap-other s k size kept bad ne h = ground (arith, find-emplace m k size s.result)

  add_gap-first :
      (s : Sizes) (k size : ℕ) (bad : Bool)
      → (k == m) ≡ true
      → View s none bad
      → View (add_gap s k size) (some size) bad
  unfolding add_gap
  add_gap-first s k size bad same h = ground (arith, find-emplace m k size s.result, ==_iff k m)

  add_gap-again :
      (s : Sizes) (k size g : ℕ) (bad : Bool)
      → (k == m) ≡ true
      → View s (some g) bad
      → View (add_gap s k size) (some g) (not (g == size) || bad)
  unfolding add_gap
  add_gap-again s k size g bad same h = ground (arith, ==_iff k m)

  -- One variable more, where the call on the rest is at hand for every state.
  module _ (all_vas : List ℕ) (v : Variable) (vs : List Variable) (s : Sizes) where
    abbrev Rest : Sizes → Option ℕ → Bool → Type 0
    Rest t kept bad =
        View t kept bad
        → find m (erase_all (collect all_vas vs t).conflicting (collect all_vas vs t).result)
          ≡ outcome kept bad (gaps all_vas m vs)

    collect-cons :
        (kept : Option ℕ) (bad : Bool)
        → View s kept bad
        → ((t : Sizes) (k : Option ℕ) (b : Bool) → Rest t k b)
        → find m
            (erase_all (collect all_vas (v ∷ vs) s).conflicting (collect all_vas (v ∷ vs) s).result)
          ≡ outcome kept bad (gaps all_vas m (v ∷ vs))
    unfolding collect
    collect-cons kept bad h rest = elim (Option-cases (usable_gap all_vas v)) [
      | inl e ↦ ground (arith, rest s kept bad h)
      | inr (size, e) ↦ elim (Bool-cases (v.type_marker == m)) [
        | inr other ↦ ground (
          arith,
          rest (add_gap s v.type_marker size) kept bad
              (add_gap-other s v.type_marker size kept bad other h),
        )
        | inl same ↦ ground (arith, counted size kept same h)
      ]
    ]
      where
        counted :
            (size : ℕ) (k : Option ℕ)
            → (v.type_marker == m) ≡ true
            → View s k bad
            → find m (
                erase_all
                  (collect all_vas vs (add_gap s v.type_marker size)).conflicting
                  (collect all_vas vs (add_gap s v.type_marker size)).result)
              ≡ outcome k bad (size ∷ gaps all_vas m vs)
        counted size none same w =
            rest _ (some size) bad (add_gap-first s v.type_marker size bad same w)
        counted size (some g) same w =
            rest _ (some g) _ (add_gap-again s v.type_marker size g bad same w) ∙ ground arith

  collect-View :
      (all_vas : List ℕ) (vs : List Variable) (s : Sizes) (kept : Option ℕ) (bad : Bool)
      → View s kept bad
      → let r = collect all_vas vs s in
        find m (erase_all r.conflicting r.result) ≡ outcome kept bad (gaps all_vas m vs)
  unfolding collect
  collect-View all_vas [] s none bad h = ground (arith, find-erase_all s.conflicting s.result)
  collect-View all_vas [] s (some g) bad h = ground (arith, find-erase_all s.conflicting s.result)
  collect-View all_vas (v ∷ vs) s kept bad h =
      collect-cons all_vas v vs s kept bad h (λ t k b. collect-View all_vas vs t k b)

-- The size of a marker is the value that the usable gaps of all its variables have in common;
-- a marker whose gaps differ, or that has none, gets no size.
pub build_marker_sizes-agreed :
    (vars : List Variable) (m : ℕ)
    → find m (build_marker_sizes vars) ≡ agreed (gaps (unique (sort (addresses vars))) m vars)
unfolding build_marker_sizes
build_marker_sizes-agreed vars m =
    collect-View m (unique (sort (addresses vars))) vars (record { result = []; conflicting = [] })
      none false (unfold find in (refl, refl))
