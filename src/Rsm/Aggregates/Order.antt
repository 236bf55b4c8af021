-- ===== src/Rsm/Aggregates/Order.antt =====
-- The scan for types on every buffer: it ends, and the types lie one behind the other.
use vscode_delphi_extension.Base.{
  ℕ, zero, suc, ◌+◌, ◌≤◌, ◌<◌, min, Option, none, some, List, [], ◌∷◌, ◌++◌, leb, Bytes, length,
  inl, inr, Returns, Returns-bind, arith, Bool-cases,
}
use vscode_delphi_extension.Rsm.SubRecord.Sound.{IfFound}
use vscode_delphi_extension.Rsm.AggregateTypes.{AggregateType, Scanned}
use vscode_delphi_extension.Rsm.Aggregates.{aggregate_at, scan_aggregates_from, scan_aggregates}
use vscode_delphi_extension.Rsm.Aggregates.Rounds.{Grown, aggregate_at-Grown}

-- The types lie one behind the other between two indices, each with room for its name.
abbrev pub InRow : ℕ → List AggregateType → ℕ → Type 0
InRow lo [] hi = lo ≤ hi
InRow lo (a ∷ as_) hi = (lo ≤ a.file_offset) × InRow (a.file_offset + 7 + length a.name) as_ hi

InRow-push :
    (lo : ℕ) (as_ : List AggregateType) (mid : ℕ) (a : AggregateType) (hi : ℕ)
    → InRow lo as_ mid
    → mid ≤ a.file_offset
    → a.file_offset + 7 + length a.name ≤ hi
    → InRow lo (as_ ++ a ∷ []) hi
InRow-push lo [] mid a hi h later fits = (omega arith, fits)
InRow-push lo (b ∷ bs) mid a hi (first, rest) later fits =
    (first, InRow-push (b.file_offset + 7 + length b.name) bs mid a hi rest later fits)

InRow-up :
    (lo : ℕ) (as_ : List AggregateType) (mid hi : ℕ) → InRow lo as_ mid → mid ≤ hi → InRow lo as_ hi
InRow-up lo [] mid hi h up = omega arith
InRow-up lo (b ∷ bs) mid hi (first, rest) up =
    (first, InRow-up (b.file_offset + 7 + length b.name) bs mid hi rest up)

Grown-InRow :
    (buf : Bytes) (s : Scanned) (i lo : ℕ) (s' : Scanned) (next : ℕ)
    → InRow lo s.aggregates i
    → Grown buf s i (s', next)
    → InRow lo s'.aggregates next
Grown-InRow buf s i lo s' next row (more, inside, inl same) =
    rw same (InRow-up lo s.aggregates i next row (omega arith))
Grown-InRow buf s i lo s' next row (more, inside, inr (a, pushed, begins, fits)) =
    rw pushed (InRow-push lo s.aggregates i a next row (omega arith) (omega arith))

module _ (anchors : List ℕ) (buf : Bytes) (lo : ℕ) where
  scan_aggregates_from-InRow :
      (fuel i : ℕ) (s : Scanned)
      → InRow lo s.aggregates i
      → i ≤ length buf
      → length buf < fuel + i
      → Returns
          (λ r. InRow lo r.aggregates (length buf))
          (scan_aggregates_from fuel anchors buf i s)
  unfolding scan_aggregates_from
  scan_aggregates_from-InRow zero i s row inside enough = absurd (omega arith)
  scan_aggregates_from-InRow (suc fuel) i s row inside enough =
      elim (Bool-cases (leb (length buf) (i + 8))) [
        | inl near_end ↦ rw near_end (InRow-up lo s.aggregates i (length buf) row inside)
        | inr far ↦ rw far (
            let more : i + 8 < length buf = ground arith in
            Returns-bind (IfFound (Grown buf s i)) (λ r. InRow lo r.aggregates (length buf))
              (aggregate_at anchors buf s i) _ (aggregate_at-Grown anchors buf s i more)
              (after more (λ s' next later end row'.
                scan_aggregates_from-InRow fuel next s' row' end (omega arith))))
      ]
    where
      after :
          i + 8 < length buf
          → ((s' : Scanned) (next : ℕ)
              → i < next
              → next ≤ length buf
              → InRow lo s'.aggregates next
              → Returns
                  (λ r. InRow lo r.aggregates (length buf))
                  (scan_aggregates_from fuel anchors buf next s'))
          → (r : Option (Scanned × ℕ)) → IfFound (Grown buf s i) r
          → Returns
              (λ x. InRow lo x.aggregates (length buf))
              (elim r [
                | none ↦ scan_aggregates_from fuel anchors buf (i + 1) s
                | some (s', next) ↦ scan_aggregates_from fuel anchors buf next s'
              ])
      after more again none h =
          again s (i + 1) (omega arith) (omega arith)
            (InRow-up lo s.aggregates i (i + 1) row (omega arith))
      after more again (some (s', next)) h =
          again s' next h.0 h.1 (Grown-InRow buf s i lo s' next row h)

pub scan_aggregates-InRow :
    (anchors : List ℕ) (buf : Bytes)
    → Returns
        (λ r. InRow (min 0x420 (length buf)) r.aggregates (length buf))
        (scan_aggregates anchors buf)
unfolding scan_aggregates
scan_aggregates-InRow anchors buf =
    let lo = min 0x420 (length buf) in
    scan_aggregates_from-InRow anchors buf lo (length buf + 1) lo _ (omega arith) (omega arith)
      (omega arith)
