-- ===== src/Rsm/Variables/Inside.antt =====
-- `isInsideProcedure` on procedures that lie one behind the other.
use vscode_delphi_extension.Base.{
  ℕ, ◌≤◌, ◌<◌, ◌≡◌, Bool, true, false, Option, none, some, List, [], ◌∷◌, ltb, arith, Bool-cases,
  ◌⊎◌, inl, inr, ◌↔◌, ltb→lt, lt→ltb,
}
use vscode_delphi_extension.Rsm.Types.{ProcedureRecord}
use vscode_delphi_extension.Rsm.Procedures.Order.{InOrder}
use vscode_delphi_extension.Rsm.Variables.{prior, is_inside_procedure}

-- Some procedure reaches over the offset.
abbrev pub IsCovered : ℕ → List ProcedureRecord → Type 0
IsCovered off [] = ⊥
IsCovered off (p ∷ ps) = ((p.file_offset ≤ off) × (off < p.file_offset_end)) ⊎ IsCovered off ps

-- Behind the offset nothing covers it.
InOrder-covered :
    (off lo : ℕ) (ps : List ProcedureRecord) (hi : ℕ)
    → InOrder lo ps hi
    → off < lo
    → IsCovered off ps
    → ⊥
InOrder-covered off lo [] hi h above c = c
InOrder-covered off lo (p ∷ ps) hi (a, b, rest) above (inl (from, to)) = absurd (omega arith)
InOrder-covered off lo (p ∷ ps) hi (a, b, rest) above (inr c) =
    InOrder-covered off p.file_offset_end ps hi rest (omega arith) c

-- The test with the last procedure that was passed.
abbrev ends_behind : ℕ → Option ProcedureRecord → Bool
ends_behind off none = false
ends_behind off (some p) = ltb off p.file_offset_end

prior_iff :
    (off : ℕ) (p : ProcedureRecord) (ps : List ProcedureRecord) (hi : ℕ)
    → p.file_offset ≤ off
    → InOrder p.file_offset_end ps hi
    → (ends_behind off (prior off (some p) ps) ≡ true)
      ↔ ((off < p.file_offset_end) ⊎ IsCovered off ps)
unfolding prior
prior_iff off p [] hi from h = (
  λ e. inl (ltb→lt off p.file_offset_end e),
  λ c. elim c [ inl lt ↦ lt→ltb off p.file_offset_end lt | inr c ↦ absurd c ],
)
prior_iff off p (q ∷ ps) hi from (a, b, rest) = elim (Bool-cases (ltb off q.file_offset)) [
  | inl above ↦ rw above (
    λ e. inl (ltb→lt off p.file_offset_end e),
    λ c. elim c [
      | inl lt ↦ lt→ltb off p.file_offset_end lt
      | inr c ↦ absurd (
          InOrder-covered off q.file_offset (q ∷ ps) hi (omega arith, b, rest)
            (ltb→lt off q.file_offset above) c)
    ],
  )
  | inr below ↦ rw below (passed (ground arith) (prior_iff off q ps hi (ground arith) rest))
]
  where
    passed :
        q.file_offset ≤ off
        → (ends_behind off (prior off (some q) ps) ≡ true)
          ↔ ((off < q.file_offset_end) ⊎ IsCovered off ps)
        → (ends_behind off (prior off (some q) ps) ≡ true)
          ↔ ((off < p.file_offset_end) ⊎ IsCovered off (q ∷ ps))
    passed from_q (f, g) =
        (λ e. elim (f e) [ inl lt ↦ inr (inl (from_q, lt)) | inr c ↦ inr (inr c) ], back g)
      where
        back :
            (((off < q.file_offset_end) ⊎ IsCovered off ps)
              → ends_behind off (prior off (some q) ps) ≡ true)
            → ((off < p.file_offset_end) ⊎ IsCovered off (q ∷ ps))
            → ends_behind off (prior off (some q) ps) ≡ true
        back g (inl lt) = absurd (omega arith)
        back g (inr (inl (_, lt))) = g (inl lt)
        back g (inr (inr c)) = g (inr c)

-- On procedures that lie one behind the other, the binary search finds out whether some procedure
-- reaches over an offset.
pub is_inside_procedure_iff :
    (off lo : ℕ) (procs : List ProcedureRecord) (hi : ℕ)
    → InOrder lo procs hi
    → (is_inside_procedure procs off ≡ true) ↔ IsCovered off procs
unfolding is_inside_procedure prior
is_inside_procedure_iff off lo [] hi h = (λ e. absurd (ground arith), λ c. absurd c)
is_inside_procedure_iff off lo (p ∷ ps) hi (a, b, rest) =
    elim (Bool-cases (ltb off p.file_offset)) [
      | inl above ↦
          rw (above, is_inside_procedure)
            (
              λ e. absurd (ground arith),
              λ c. absurd (
                  InOrder-covered off p.file_offset (p ∷ ps) hi (omega arith, b, rest)
                    (ltb→lt off p.file_offset above) c),
            )
      | inr below ↦
          rw (below, is_inside_procedure)
            (first (ground arith) (prior_iff off p ps hi (ground arith) rest))
    ]
  where
    first :
        p.file_offset ≤ off
        → (ends_behind off (prior off (some p) ps) ≡ true)
          ↔ ((off < p.file_offset_end) ⊎ IsCovered off ps)
        → (ends_behind off (prior off (some p) ps) ≡ true) ↔ IsCovered off (p ∷ ps)
    first from (f, g) = (
      λ e. elim (f e) [ inl lt ↦ inl (from, lt) | inr c ↦ inr c ],
      λ c. elim c [ inl (_, lt) ↦ g (inl lt) | inr c ↦ g (inr c) ],
    )
