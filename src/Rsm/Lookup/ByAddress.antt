-- ===== src/Rsm/Lookup/ByAddress.antt =====
-- The lookups by address against a search through the list.
use vscode_delphi_extension.Base.{
  ℕ, suc, ◌+◌, ◌≡◌, refl, ap, ◌∙◌, Bool, true, false, ◌&&◌, Option, none, some, List, [], ◌∷◌, ◌==◌,
  leb, if◌then◌else◌, get_elem?, find, emplace, find-emplace, nat_eq, arith, Bool-cases, inl, inr,
}
use vscode_delphi_extension.Rsm.Types.{Variable, ProcedureRecord}
use vscode_delphi_extension.Rsm.Lookup.{
  index_by, at_index, var_by_va, proc_by_va, find_variable_at, find_procedure_at,
}

module _ {ℓ} {A : Type ℓ} (address : A → ℕ) (keep : A → Bool) (va : ℕ) where
  -- The first element that is kept and has the address, and its index.
  abbrev pub first_by : List A → Option A
  first_by [] = none
  first_by (a ∷ rest) = if keep a && address a == va then some a else first_by rest

  abbrev first_index : List A → Option ℕ
  first_index [] = none
  first_index (a ∷ rest) =
      if keep a && address a == va
      then some 0
      else elim (first_index rest) [ none ↦ none | some i ↦ some (suc i) ]

  get_elem?-first_index :
      (items : List A)
      → elim (first_index items) as (λ x. Option A) [ none ↦ none | some i ↦ get_elem? items i ]
        ≡ first_by items
  get_elem?-first_index [] = refl
  get_elem?-first_index (a ∷ rest) = elim (Bool-cases (keep a && address a == va)) [
    | inl here ↦ rw here refl
    | inr later ↦ rw later (moved (first_index rest) ∙ get_elem?-first_index rest)
  ]
    where
      moved :
          (o : Option ℕ)
          → elim (elim o as (λ x. Option ℕ) [ none ↦ none | some i ↦ some (suc i) ])
              as (λ x. Option A) [ none ↦ none | some i ↦ get_elem? (a ∷ rest) i ]
            ≡ elim o as (λ x. Option A) [ none ↦ none | some i ↦ get_elem? rest i ]
      moved none = refl
      moved (some i) = refl

  -- What the map holds already, or else the first index, counted from `k`.
  abbrev or_index : ℕ → Option ℕ → Option ℕ → Option ℕ
  or_index k (some w) o = some w
  or_index k none none = none
  or_index k none (some i) = some (k + i)

  miss :
      (k : ℕ) (f o : Option ℕ)
      → or_index (k + 1) f o
        ≡ or_index k f (elim o as (λ x. Option ℕ) [ none ↦ none | some i ↦ some (suc i) ])
  miss k (some w) o = refl
  miss k none none = refl
  miss k none (some i) = ap some (omega arith)

  emplaced :
      (k : ℕ) (b : Bool) (f o : Option ℕ)
      → or_index
          (k + 1)
          (elim f as (λ x. Option ℕ) [ some w ↦ some w | none ↦ if b then some k else none ])
          o
        ≡ or_index k f (
            if b then some 0 else elim o as (λ x. Option ℕ) [ none ↦ none | some i ↦ some (suc i) ])
  emplaced k true none o = ap some (omega arith)
  emplaced k false none o = miss k none o
  emplaced k b (some w) o = refl

  found_emplace :
      (j k : ℕ) (m : List (ℕ × ℕ))
      → find va (emplace j k m) ≡ elim (find va m) as (λ x. Option ℕ) [
        | some w ↦ some w
        | none ↦ if j == va then some k else none
      ]
  found_emplace j k m = find-emplace va j k m

  find-index_by :
      (k : ℕ) (items : List A) (m : List (ℕ × ℕ))
      → find va (index_by address keep k items m) ≡ or_index k (find va m) (first_index items)
  unfolding index_by
  find-index_by k [] m = ended (find va m)
    where
      ended : (o : Option ℕ) → o ≡ or_index k o none
      ended none = refl
      ended (some w) = refl
  find-index_by k (a ∷ rest) m = elim (Bool-cases (keep a)) [
    | inr out ↦ rw out (find-index_by (k + 1) rest m ∙ miss k (find va m) (first_index rest))
    | inl kept ↦ rw kept (
        find-index_by (k + 1) rest (emplace (address a) k m)
        ∙ rw (found_emplace (address a) k m)
            (emplaced k (address a == va) (find va m) (first_index rest)))
  ]

  at_index-first_by :
      (items : List A) → at_index (index_by address keep 0 items []) items va ≡ first_by items
  unfolding find
  at_index-first_by items =
      rw (find-index_by 0 items [], at_index)
        (counted (first_index items) ∙ get_elem?-first_index items)
    where
      counted :
          (o : Option ℕ)
          → elim (or_index 0 none o) as (λ x. Option A) [ none ↦ none | some i ↦ get_elem? items i ]
            ≡ elim o as (λ x. Option A) [ none ↦ none | some i ↦ get_elem? items i ]
      counted none = refl
      counted (some i) = ap (get_elem? items) (omega arith)

-- The lookup of a variable by address gives the first variable with that address in the order of
-- the file, and nothing below the image base 0x400000.
pub find_variable_at-first_by :
    (vars : List Variable) (va : ℕ)
    → find_variable_at vars va ≡ first_by (λ v. v.address) (λ v. leb 0x00400000 v.address) va vars
unfolding find_variable_at var_by_va
find_variable_at-first_by vars va =
    at_index-first_by (λ (v : Variable). v.address) (λ (v : Variable). leb 0x00400000 v.address) va
      vars

-- The lookup of a procedure by address gives the first procedure with that address.
pub find_procedure_at-first_by :
    (procs : List ProcedureRecord) (va : ℕ)
    → find_procedure_at procs va ≡ first_by (λ p. p.address) (λ p. true) va procs
unfolding find_procedure_at proc_by_va
find_procedure_at-first_by procs va =
    at_index-first_by (λ (p : ProcedureRecord). p.address) (λ (p : ProcedureRecord). true) va procs
