-- ===== src/Rsm/Procedures/Order.antt =====
-- The scan for procedures on every buffer: it ends, and its procedures lie one behind the other.
use vscode_delphi_extension.Base.{
  ℕ, zero, suc, ◌+◌, ◌-◌, ◌≤◌, ◌<◌, ◌≡◌, refl, sym, min, Bool, true, false, Option, none, some,
  List, [], ◌∷◌, ◌++◌, leb, Bytes, length, at, Returns, Returns-bind, arith, Bool-cases, inl, inr,
  word_at, read_u32_lem,
}
use vscode_delphi_extension.Rsm.Types.{ProcedureRecord}
use vscode_delphi_extension.Rsm.SubRecord.Sound.{IfFound, is_printable_name-Returns}
use vscode_delphi_extension.Rsm.Procedures.{
  find_first_sub, walk, va_offset, proc_head, proc_from, proc_body, proc_at, scan_procedures_from,
  scan_procedures,
}
use vscode_delphi_extension.Rsm.Procedures.Sound.{find_first_sub-Returns, walk-Returns}

-- A procedure found at `pi`, with the index where the scan goes on: its end, inside the buffer.
pub record IsProc (buf : Bytes) (pi : ℕ) (r : ProcedureRecord × ℕ) : Type 0 where
  pub begins : r.0.file_offset ≡ pi
  pub ends : r.0.file_offset_end ≡ r.1
  pub grows : pi < r.1
  pub inside : r.1 ≤ length buf

proc_from-IsProc :
    (buf : Bytes) (pi : ℕ) (proc : ProcedureRecord) (first : Option (ℕ × Bool))
    → proc.file_offset ≡ pi
    → IfFound (λ r. (pi < r.0) × (r.0 < length buf)) first
    → Returns (IfFound (IsProc buf pi)) (proc_from buf proc first)
unfolding proc_from
proc_from-IsProc buf pi proc none begins h = tt
proc_from-IsProc buf pi proc (some (at_end, true)) begins (lo, hi) = record {
  begins = begins;
  ends = refl;
  grows = omega arith;
  inside = omega arith;
}
proc_from-IsProc buf pi proc (some (first_sub, false)) begins (lo, hi) =
    Returns-bind (λ w. (first_sub ≤ w.next) × (w.next ≤ length buf)) (IfFound (IsProc buf pi))
      (walk (length buf + 1) buf (record { params = []; locals = []; next = first_sub })) _
      (walk-Returns (length buf + 1) buf (record { params = []; locals = []; next = first_sub })
        (omega arith) (omega arith))
      (λ w h. record { begins = begins; ends = refl; grows = omega arith; inside = h.1 })

module _ (buf : Bytes) (pi name_len sub_tag : ℕ) (fits : pi + 2 + name_len + 14 < length buf) where
  va_offset-bounds :
      (pi + 2 + name_len + 3 ≤ va_offset sub_tag (pi + 2 + name_len))
      × (va_offset sub_tag (pi + 2 + name_len) ≤ pi + 2 + name_len + 7)
  unfolding va_offset
  va_offset-bounds = ground arith

  proc_body-IsProc : Returns (IfFound (IsProc buf pi)) (proc_body buf pi name_len sub_tag)
  unfolding proc_body proc_head
  proc_body-IsProc =
      let va_off = va_offset sub_tag (pi + 2 + name_len) in
      let scan_from = va_off + 4 in
      let n = min (scan_from + 96) (length buf - 8) - scan_from in
      let (lo, hi) = va_offset-bounds in
      rw (read_u32_lem buf va_off (omega arith)) (
        Returns-bind (IfFound (λ r. (scan_from ≤ r.0) × (r.0 < scan_from + n)))
          (IfFound (IsProc buf pi)) (find_first_sub n buf scan_from) _
          (find_first_sub-Returns n buf scan_from (omega arith))
          (λ first h.
            proc_from-IsProc buf pi (proc_head buf pi name_len (word_at buf va_off) sub_tag) first
              refl (later (omega arith) (omega arith) first h)))
    where
      later :
          {lo hi : ℕ}
          → pi < lo
          → hi ≤ length buf
          → (first : Option (ℕ × Bool)) → IfFound (λ r. (lo ≤ r.0) × (r.0 < hi)) first
          → IfFound (λ r. (pi < r.0) × (r.0 < length buf)) first
      later below above none h = tt
      later below above (some r) (a, b) = (omega arith, omega arith)

proc_at-IsProc :
    (buf : Bytes) (pi : ℕ)
    → pi + 16 < length buf
    → Returns (IfFound (IsProc buf pi)) (proc_at buf pi)
unfolding proc_at
proc_at-IsProc buf pi h = ground (
  arith,
  is_printable_name-Returns buf (pi + 2) (at buf (pi + 1)),
  proc_body-IsProc buf pi (at buf (pi + 1)) (at buf (pi + 2 + at buf (pi + 1))),
)

-- The procedures lie one behind the other between two indices.
abbrev pub InOrder : ℕ → List ProcedureRecord → ℕ → Type 0
InOrder lo [] hi = lo ≤ hi
InOrder lo (p ∷ ps) hi =
    (lo ≤ p.file_offset) × (p.file_offset < p.file_offset_end) × InOrder p.file_offset_end ps hi

InOrder-push :
    (lo : ℕ) (ps : List ProcedureRecord) (mid : ℕ) (p : ProcedureRecord)
    → InOrder lo ps mid
    → mid ≤ p.file_offset
    → p.file_offset < p.file_offset_end
    → InOrder lo (ps ++ p ∷ []) p.file_offset_end
InOrder-push lo [] mid p h later grows = (omega arith, grows, omega arith)
InOrder-push lo (q ∷ ps) mid p (a, b, rest) later grows =
    (a, b, InOrder-push q.file_offset_end ps mid p rest later grows)

InOrder-up :
    (lo : ℕ) (ps : List ProcedureRecord) (mid hi : ℕ)
    → InOrder lo ps mid
    → mid ≤ hi
    → InOrder lo ps hi
InOrder-up lo [] mid hi h up = omega arith
InOrder-up lo (q ∷ ps) mid hi (a, b, rest) up =
    (a, b, InOrder-up q.file_offset_end ps mid hi rest up)

scan_procedures_from-InOrder :
    (fuel : ℕ) (buf : Bytes) (lo pi : ℕ) (out : List ProcedureRecord)
    → InOrder lo out pi
    → pi ≤ length buf
    → length buf < fuel + pi
    → Returns (λ ps. InOrder lo ps (length buf)) (scan_procedures_from fuel buf pi out)
unfolding scan_procedures_from
scan_procedures_from-InOrder zero buf lo pi out ordered inside enough = absurd (omega arith)
scan_procedures_from-InOrder (suc fuel) buf lo pi out ordered inside enough =
    elim (Bool-cases (leb (length buf) (pi + 16))) [
      | inl near_end ↦ rw near_end (InOrder-up lo out pi (length buf) ordered inside)
      | inr far ↦ rw far (
          let more : pi + 16 < length buf = ground arith in
          Returns-bind (IfFound (IsProc buf pi)) (λ ps. InOrder lo ps (length buf)) (proc_at buf pi)
            _ (proc_at-IsProc buf pi more)
            (after more λ next out' later end in_order.
              scan_procedures_from-InOrder fuel buf lo next out' in_order end (omega arith)))
    ]
  where
    after :
        pi + 16 < length buf
        → ((next : ℕ) (out' : List ProcedureRecord)
            → pi < next
            → next ≤ length buf
            → InOrder lo out' next
            → Returns (λ ps. InOrder lo ps (length buf)) (scan_procedures_from fuel buf next out'))
        → (r : Option (ProcedureRecord × ℕ)) → IfFound (IsProc buf pi) r
        → Returns
            (λ ps. InOrder lo ps (length buf))
            (elim r [
              | none ↦ scan_procedures_from fuel buf (pi + 1) out
              | some (proc, next) ↦ scan_procedures_from fuel buf next (out ++ proc ∷ [])
            ])
    after more again none h =
        again (pi + 1) out (omega arith) (omega arith)
          (InOrder-up lo out pi (pi + 1) ordered (omega arith))
    after more again (some (proc, next)) h =
        again next (out ++ proc ∷ []) h.grows h.inside
          (rw (sym h.ends) (InOrder-push lo out pi proc ordered (omega arith) (omega arith)))

-- The scan for procedures ends on every buffer and reads inside it only. Its procedures start at
-- the offset 0x426 or later, each ends behind its start and not behind the start of the next one,
-- and the last one ends inside the buffer.
pub scan_procedures-InOrder :
    (buf : Bytes)
    → Returns (λ ps. InOrder (min 0x426 (length buf)) ps (length buf)) (scan_procedures buf)
unfolding scan_procedures
scan_procedures-InOrder buf =
    scan_procedures_from-InOrder (length buf + 1) buf (min 0x426 (length buf))
      (min 0x426 (length buf)) [] (omega arith) (omega arith) (omega arith)
