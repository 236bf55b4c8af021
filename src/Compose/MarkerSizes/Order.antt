-- ===== src/Compose/MarkerSizes/Order.antt =====
-- The gap is measured to the nearest greater address.
use vscode_delphi_extension.Base.{
  ℕ, ◌+◌, ◌≤◌, ◌<◌, ◌≡◌, ◌↔◌, refl, true, Option, none, some, List, [], ◌∷◌, ltb, leb, ◌==◌, arith,
  ◌⊎◌, inl, inr, Bool-cases,
}
use vscode_delphi_extension.Rsm.Types.{Variable}
use vscode_delphi_extension.Compose.MarkerSizes.{
  insert, sort, unique, upper_bound, is_global, addresses, usable_gap,
}

-- `a` is in the list.
abbrev pub In : ℕ → List ℕ → Type 0
In a [] = ⊥
In a (x ∷ xs) = (a ≡ x) ⊎ In a xs

abbrev Ascending : List ℕ → Type 0
Ascending [] = Unit
Ascending (x ∷ xs) = ((a : ℕ) → In a xs → x ≤ a) × Ascending xs

In-insert : (a x : ℕ) (xs : List ℕ) → In a (insert x xs) → (a ≡ x) ⊎ In a xs
unfolding insert
In-insert a x [] h = h
In-insert a x (y ∷ ys) h = ground (arith, In-insert a x ys)

insert-In : (a x : ℕ) (xs : List ℕ) → (a ≡ x) ⊎ In a xs → In a (insert x xs)
unfolding insert
insert-In a x [] h = h
insert-In a x (y ∷ ys) h = ground (arith, insert-In a x ys)

insert-Ascending : (x : ℕ) (xs : List ℕ) → Ascending xs → Ascending (insert x xs)
unfolding insert
insert-Ascending x [] h = ((λ a i. elim i [ ]), tt)
insert-Ascending x (y ∷ ys) (le, h) = elim (Bool-cases (leb x y)) [
  | inl small ↦ rw small ((λ a i. ground (arith, le a)), (le, h))
  | inr big ↦ rw big ((λ a i. ground (arith, In-insert a x ys i, le a)), insert-Ascending x ys h)
]

sort-Ascending : (xs : List ℕ) → Ascending (sort xs)
unfolding sort
sort-Ascending [] = tt
sort-Ascending (x ∷ xs) = insert-Ascending x (sort xs) (sort-Ascending xs)

In-sort : (a : ℕ) (xs : List ℕ) → In a (sort xs) → In a xs
unfolding sort
In-sort a [] h = h
In-sort a (x ∷ xs) h = elim (In-insert a x (sort xs) h) [
  | inl e ↦ inl e
  | inr i ↦ inr (In-sort a xs i)
]

sort-In : (a : ℕ) (xs : List ℕ) → In a xs → In a (sort xs)
unfolding sort
sort-In a [] h = h
sort-In a (x ∷ xs) (inl e) = insert-In a x (sort xs) (inl e)
sort-In a (x ∷ xs) (inr i) = insert-In a x (sort xs) (inr (sort-In a xs i))

In-unique : (a : ℕ) (xs : List ℕ) → In a (unique xs) → In a xs
unfolding unique
In-unique a [] h = h
In-unique a (x ∷ []) h = h
In-unique a (x ∷ y ∷ xs) h = ground (arith, In-unique a (y ∷ xs))

unique-In : (a : ℕ) (xs : List ℕ) → In a xs → In a (unique xs)
unfolding unique
unique-In a [] h = h
unique-In a (x ∷ []) h = h
unique-In a (x ∷ y ∷ xs) h = ground (arith, unique-In a (y ∷ xs))

unique-Ascending : (xs : List ℕ) → Ascending xs → Ascending (unique xs)
unfolding unique
unique-Ascending [] h = tt
unique-Ascending (x ∷ []) h = h
unique-Ascending (x ∷ y ∷ xs) (le, h) = elim (Bool-cases (x == y)) [
  | inl e ↦ rw e (unique-Ascending (y ∷ xs) h)
  | inr e ↦ rw e ((λ a i. le a (In-unique a (y ∷ xs) i)), unique-Ascending (y ∷ xs) h)
]

-- The least element above `v`, or none above.
abbrev IsNext : List ℕ → ℕ → Option ℕ → Type 0
IsNext xs v none = (a : ℕ) → In a xs → a ≤ v
IsNext xs v (some n) = In n xs × (v < n) × ((a : ℕ) → In a xs → v < a → n ≤ a)

IsNext-cons :
    (x : ℕ) (xs : List ℕ) (v : ℕ) (o : Option ℕ) → x ≤ v → IsNext xs v o → IsNext (x ∷ xs) v o
IsNext-cons x xs v none le h = λ a i. ground (arith, h a)
IsNext-cons x xs v (some n) le (i, lt, h) = (inr i, lt, λ a j. ground (arith, h a))

upper_bound-IsNext : (xs : List ℕ) (v : ℕ) → Ascending xs → IsNext xs v (upper_bound xs v)
unfolding upper_bound
upper_bound-IsNext [] v h = λ a i. elim i [ ]
upper_bound-IsNext (x ∷ xs) v (le, h) = elim (Bool-cases (ltb v x)) [
  | inl above ↦ rw above (inl refl, ground arith, λ a i lt. ground (arith, le a))
  | inr below ↦
      rw below (IsNext-cons x xs v (upper_bound xs v) (ground arith) (upper_bound-IsNext xs v h))
]

IsNext-same :
    (xs ys : List ℕ) (v : ℕ) (o : Option ℕ)
    → ((a : ℕ) → In a xs → In a ys)
    → ((a : ℕ) → In a ys → In a xs)
    → IsNext xs v o
    → IsNext ys v o
IsNext-same xs ys v none to from h = λ a i. h a (from a i)
IsNext-same xs ys v (some n) to from (i, lt, h) = (to n i, lt, λ a j. h a (from a j))

upper_bound-unique-IsNext : (xs : List ℕ) (v : ℕ) → IsNext xs v (upper_bound (unique (sort xs)) v)
upper_bound-unique-IsNext xs v =
    IsNext-same (unique (sort xs)) xs v (upper_bound (unique (sort xs)) v)
      (λ a i. In-sort a xs (In-unique a (sort xs) i))
      (λ a i. unique-In a (sort xs) (sort-In a xs i))
      (upper_bound-IsNext (unique (sort xs)) v (unique-Ascending (sort xs) (sort-Ascending xs)))

-- A global whose nearest greater address among the globals is 1 to 16 bytes away, at distance `g`.
abbrev pub IsGap : List Variable → Variable → ℕ → Type 0
IsGap vars v g =
    (is_global v ≡ true)
    × In (v.address + g) (addresses vars)
    × (0 < g)
    × (g ≤ 16)
    × ((a : ℕ) → In a (addresses vars) → v.address < a → v.address + g ≤ a)

IsGap-usable_gap :
    (vars : List Variable) (v : Variable) (g : ℕ) (o : Option ℕ)
    → IsNext (addresses vars) v.address o
    → upper_bound (unique (sort (addresses vars))) v.address ≡ o
    → (usable_gap (unique (sort (addresses vars))) v ≡ some g → IsGap vars v g)
      × (IsGap vars v g → usable_gap (unique (sort (addresses vars))) v ≡ some g)
unfolding usable_gap
IsGap-usable_gap vars v g none next e =
    (λ h. ground arith, λ (gl, i, lo, hi, least). ground (arith, next (v.address + g) i))
IsGap-usable_gap vars v g (some n) (i, lt, least) e = (
  λ h.
      let facts : (is_global v ≡ true) × (n ≡ v.address + g) × (0 < g) × (g ≤ 16) = ground arith in
      (facts.0, rw (← facts.1) i, facts.2, facts.3, λ a j above. ground (arith, least a j above)),
  λ (gl, j, lo, hi, nearest). ground (arith, least (v.address + g) j, nearest n i lt),
)

-- The gap that the loop uses is the distance to the nearest greater address of a global, where
-- that is between 1 and 16, and there is none otherwise.
pub usable_gap_iff :
    (vars : List Variable) (v : Variable) (g : ℕ)
    → (usable_gap (unique (sort (addresses vars))) v ≡ some g) ↔ IsGap vars v g
usable_gap_iff vars v g =
    IsGap-usable_gap vars v g _ (upper_bound-unique-IsNext (addresses vars) v.address) refl
