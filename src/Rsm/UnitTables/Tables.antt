-- ===== src/Rsm/UnitTables/Tables.antt =====
-- The type tables of the units on every buffer.
use vscode_delphi_extension.Base.{
  ℕ, zero, suc, ◌+◌, ◌-◌, ◌≤◌, ◌<◌, ◌≡◌, refl, ap, Option, none, some, List, [], ◌∷◌, leb, ◌>>=◌,
  Bytes, length, at, read_u32_lem, Returns, Returns-bind, arith, Bool-cases, inl, inr,
}
use vscode_delphi_extension.Rsm.Types.{UnitTypeEntry}
use vscode_delphi_extension.Rsm.SubRecord.Sound.{IfFound}
use vscode_delphi_extension.Rsm.UnitTables.{
  UnitAnchor, separator, entry_at, entry_round, entries_from, type_tables, find_anchors,
  anchors_and_tables,
}
use vscode_delphi_extension.Rsm.UnitTables.Anchors.{
  is_print_ascii-Returns, AreAnchors, find_anchors-AreAnchors,
}

module _ (buf : Bytes) (hi : ℕ) (wide : hi ≤ length buf) where
  separator-Returns :
      (cur b0 : ℕ)
      → cur + 10 < hi
      → Returns (IfFound (λ next. (cur < next) × (next ≤ hi))) (separator buf hi cur b0)
  unfolding separator
  separator-Returns cur b0 h =
      ground (arith, is_print_ascii-Returns buf (cur + 3) (at buf (cur + 2)))

  -- A round goes on at a later index, not behind the end.
  abbrev Grows : ℕ → List UnitTypeEntry × ℕ → Type 0
  Grows cur r = (cur < r.1) × (r.1 ≤ hi)

  entry_at-Returns :
      (scan_lo cur b0 : ℕ) (entries : List UnitTypeEntry)
      → cur + 10 < hi
      → Returns (IfFound (Grows cur)) (entry_at buf scan_lo hi cur b0 entries)
  unfolding entry_at
  entry_at-Returns scan_lo cur b0 entries h =
      let nl = at buf (cur + 1) in
      ground (
        arith,
        is_print_ascii-Returns buf (cur + 2) nl,
        λ (le : cur + 2 + nl + 4 ≤ length buf). read_u32_lem buf (cur + 2 + nl) le,
      )

  entry_round-Returns :
      (scan_lo cur : ℕ) (entries : List UnitTypeEntry)
      → cur + 10 < hi
      → Returns (IfFound (Grows cur)) (entry_round buf scan_lo hi cur entries)
  unfolding entry_round
  entry_round-Returns scan_lo cur entries h = ground (
    arith,
    separator-Returns cur (at buf cur) h,
    entry_at-Returns scan_lo cur (at buf cur) entries h,
  )

  entries_from-Returns :
      (fuel scan_lo cur : ℕ) (entries : List UnitTypeEntry)
      → hi < fuel + cur
      → 0 < fuel
      → Returns (λ es. Unit {0}) (entries_from fuel buf scan_lo hi cur entries)
  unfolding entries_from
  entries_from-Returns zero scan_lo cur entries enough some_fuel = absurd (omega arith)
  entries_from-Returns (suc fuel) scan_lo cur entries enough some_fuel =
      elim (Bool-cases (leb hi (cur + 10))) [
        | inl near_end ↦ rw near_end tt
        | inr far ↦ rw far (
            Returns-bind (IfFound (Grows cur)) (λ es. Unit {0})
              (entry_round buf scan_lo hi cur entries) _
              (entry_round-Returns scan_lo cur entries (ground arith))
              (after λ entries' next later end.
                entries_from-Returns fuel scan_lo next entries' (omega arith) (omega arith)))
      ]
    where
      after :
          ((entries' : List UnitTypeEntry) (next : ℕ)
            → cur < next
            → next ≤ hi
            → Returns (λ es. Unit {0}) (entries_from fuel buf scan_lo hi next entries'))
          → (r : Option (List UnitTypeEntry × ℕ)) → IfFound (Grows cur) r
          → Returns
              (λ es. Unit {0})
              (elim r [
                | none ↦ some entries
                | some (entries', next) ↦ entries_from fuel buf scan_lo hi next entries'
              ])
      after again none h = tt
      after again (some (entries', next)) (from, to) = again entries' next from to

AreAnchors-le : (lo hi : ℕ) (us : List UnitAnchor) → AreAnchors lo us hi → lo ≤ hi
AreAnchors-le lo hi [] h = h
AreAnchors-le lo hi (u ∷ us) (a, rest) =
    let le = AreAnchors-le (u.file_offset + 2 + length u.name) hi us rest in omega arith

-- Where the table of a unit ends.
end_of-le :
    (buf : Bytes) (lo hi : ℕ) (us : List UnitAnchor)
    → AreAnchors lo us hi
    → hi ≤ length buf
    → (elim us as (λ x. ℕ) [ [] ↦ length buf | next ∷ _ ↦ next.file_offset ]) ≤ length buf
end_of-le buf lo hi [] h wide = omega arith
end_of-le buf lo hi (u ∷ us) (a, rest) wide =
    let le = AreAnchors-le (u.file_offset + 2 + length u.name) hi us rest in omega arith

type_tables-Returns :
    (buf : Bytes) (lo hi : ℕ) (us : List UnitAnchor)
    → AreAnchors lo us hi
    → hi ≤ length buf
    → Returns (λ ts. length ts ≡ length us) (type_tables buf us)
unfolding type_tables
type_tables-Returns buf lo hi [] h wide = refl
type_tables-Returns buf lo hi (u ∷ us) (a, rest) wide =
    let end : ℕ = elim us [ [] ↦ length buf | next ∷ _ ↦ next.file_offset ] in
    let from = u.file_offset + 0x20 in
    Returns-bind (λ es. Unit {0}) (λ ts. length ts ≡ suc (length us))
      (entries_from (end + 1) buf from end from []) _
      (entries_from-Returns buf end
        (end_of-le buf (u.file_offset + 2 + length u.name) hi us rest wide) (end + 1) from from []
        (omega arith) (omega arith))
      (λ es x.
        Returns-bind (λ ts. length ts ≡ length us) (λ ts. length ts ≡ suc (length us))
          (type_tables buf us) _
          (type_tables-Returns buf (u.file_offset + 2 + length u.name) hi us rest wide)
          (λ ts e. ap suc e))

abbrev pub AreTables : Bytes → List UnitAnchor × List (List UnitTypeEntry) → Type 0
AreTables buf r = AreAnchors 0x420 r.0 (0x420 + (length buf - 0x420)) × (length r.1 ≡ length r.0)

-- On every buffer the search for the units and the reading of their tables end and read inside the
-- buffer only. The anchors lie one behind the other from the offset 0x420 on, each with its name,
-- and there is a table for each of them.
pub anchors_and_tables-Returns : (buf : Bytes) → Returns (AreTables buf) (anchors_and_tables buf)
unfolding anchors_and_tables
anchors_and_tables-Returns buf =
    Returns-bind (λ us. AreAnchors 0x420 us (0x420 + (length buf - 0x420))) (AreTables buf)
      (find_anchors buf) _ (find_anchors-AreAnchors buf)
      (λ us laid. paired us laid (tables us laid))
  where
    tables :
        (us : List UnitAnchor)
        → AreAnchors 0x420 us (0x420 + (length buf - 0x420))
        → Returns (λ ts. length ts ≡ length us) (type_tables buf us)
    tables [] laid = type_tables-Returns buf 0 0 [] (omega arith) (omega arith)
    tables (u ∷ us) (a, rest) =
        let le =
          AreAnchors-le (u.file_offset + 2 + length u.name) (0x420 + (length buf - 0x420)) us
            rest in
        type_tables-Returns buf 0x420 (0x420 + (length buf - 0x420)) (u ∷ us) (a, rest)
          (omega arith)

    paired :
        (us : List UnitAnchor)
        → AreAnchors 0x420 us (0x420 + (length buf - 0x420))
        → Returns (λ ts. length ts ≡ length us) (type_tables buf us)
        → Returns (AreTables buf) (type_tables buf us >>= (λ ts. some (us, ts)))
    paired us laid read_ =
        Returns-bind (λ ts. length ts ≡ length us) (AreTables buf) (type_tables buf us) _ read_
          (λ ts e. (laid, e))
