-- ===== src/Rsm/Lookup/Names.antt =====
-- The name that a variable is stamped with against the lookup by unit and marker.
use vscode_delphi_extension.Base.{
  ℕ, ◌+◌, ◌≤◌, ◌≡◌, subst, Option, none, some, List, [], ◌∷◌, map, ltb, if◌then◌else◌, length,
  nat_eq, arith, Bool-cases, Option-cases, inl, inr,
}
use vscode_delphi_extension.Rsm.Types.{Variable, UnitTypeEntry}
use vscode_delphi_extension.Rsm.UnitTables.{UnitAnchor}
use vscode_delphi_extension.Rsm.UnitTables.Anchors.{AreAnchors}
use vscode_delphi_extension.Rsm.Lookup.{
  prior_offset, unit_anchor_for, unit_type_entry_for_marker, primitive_name_for_marker, pascal_name,
}

abbrev pub offsets : List UnitAnchor → List ℕ
offsets us = map (λ (u : UnitAnchor). u.file_offset) us

-- What is found, if anything, is above a bound.
abbrev IsAbove : ℕ → Option ℕ → Type 0
IsAbove lo none = Unit
IsAbove lo (some a) = lo ≤ a

prior_offset-IsAbove :
    (off lo mid hi : ℕ) (best : Option ℕ) (us : List UnitAnchor)
    → AreAnchors mid us hi
    → lo ≤ mid
    → IsAbove lo best
    → IsAbove lo (prior_offset off best (offsets us))
unfolding prior_offset
prior_offset-IsAbove off lo mid hi best [] laid le h = h
prior_offset-IsAbove off lo mid hi best (u ∷ us) (a, rest) le h =
    elim (Bool-cases (ltb off u.file_offset)) [
      | inl above ↦ rw above h
      | inr below ↦ rw below (
          prior_offset-IsAbove off lo (u.file_offset + 2 + length u.name) hi (some u.file_offset) us
            rest (omega arith) (omega arith))
    ]

-- On anchors that lie one behind the other from a positive offset on, a primitive variable gets the
-- name that the lookup gives for its unit and its marker, and another variable gets none. The sort
-- may be any function that keeps their offsets, which are sorted.
pub pascal_name-lookup :
    (sort : List ℕ → List ℕ) (anchors : List UnitAnchor) (hi : ℕ)
    (tables : List (ℕ × List UnitTypeEntry)) (v : Variable)
    → AreAnchors 0x420 anchors hi
    → sort (offsets anchors) ≡ offsets anchors
    → pascal_name anchors tables v ≡ (
        if v.is_primitive
        then primitive_name_for_marker tables
            (unit_anchor_for (sort (offsets anchors)) v.file_offset)
            v.type_marker
        else none)
unfolding pascal_name primitive_name_for_marker unit_type_entry_for_marker unit_anchor_for
pascal_name-lookup sort anchors hi tables v laid sorted =
    let above =
      prior_offset-IsAbove v.file_offset 0x420 0x420 hi none anchors laid (omega arith) tt in
    elim (Option-cases (prior_offset v.file_offset none (offsets anchors))) [
      | inl e ↦ rw (sorted, e) (ground arith)
      | inr (a, e) ↦
          let far : 0x420 ≤ a = subst (IsAbove 0x420) e above in rw (sorted, e) (ground arith)
    ]
