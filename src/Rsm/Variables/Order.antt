-- ===== src/Rsm/Variables/Order.antt =====
-- The scan for variables on every buffer: it ends, and its variables lie one behind the other and
-- outside the procedures.
use vscode_delphi_extension.Base.{
  ℕ, zero, suc, ◌+◌, ◌≤◌, ◌<◌, ◌≡◌, refl, sym, subst, min, Bool, true, false, Option, none, some,
  List, [], ◌∷◌, ◌++◌, leb, take, if◌then◌else◌, ◌>>=◌, Bytes, length, length-take, read, at,
  Returns, Returns-bind, arith, Bool-cases, inl, inr, word_at, read_u32_lem, drop, or16,
}
use vscode_delphi_extension.Rsm.Types.{Variable, ProcedureRecord}
use vscode_delphi_extension.Rsm.SubRecord.Sound.{IfFound, is_printable_name-Returns}
use vscode_delphi_extension.Rsm.Procedures.{scan_procedures}
use vscode_delphi_extension.Rsm.Procedures.Order.{InOrder, scan_procedures-InOrder}
use vscode_delphi_extension.Rsm.Variables.{
  is_inside_procedure, variable_of, primitive_form, other_form, has_trailer, payload, variable_at,
  scan_variables_from, scan_variables, scan_procedures_and_variables,
}
use vscode_delphi_extension.Rsm.Variables.Inside.{IsCovered, is_inside_procedure_iff}

-- A variable found at `i`, with the index behind its record.
pub record IsVariable (buf : Bytes) (i : ℕ) (r : Variable × ℕ) : Type 0 where
  pub begins : r.0.file_offset ≡ i
  pub holds : i + 10 + length r.0.name ≤ r.1
  pub inside : r.1 ≤ length buf

has_trailer-Returns :
    (buf : Bytes) (payload_at : ℕ)
    → Returns (λ b. b ≡ true → payload_at + 12 ≤ length buf) (has_trailer buf payload_at)
unfolding has_trailer
has_trailer-Returns buf payload_at = ground arith

module _ (buf : Bytes) (i name_len : ℕ) (fits : i + 2 + name_len + 3 + 6 ≤ length buf) where
  name_short : length (take name_len (drop (i + 2) buf)) ≤ name_len
  name_short = omega (arith, length-take name_len (drop (i + 2) buf))

  primitive_form-IsVariable :
      (b0 : ℕ)
      → Returns (IsVariable buf i) (primitive_form buf i name_len (i + 2 + name_len + 3) b0)
  unfolding primitive_form
  primitive_form-IsVariable b0 =
      let payload_at = i + 2 + name_len + 3 in
      rw (read_u32_lem buf (payload_at + 1) (omega arith)) (
        Returns-bind (λ b. b ≡ true → payload_at + 12 ≤ length buf) (IsVariable buf i)
          (has_trailer buf payload_at) _ (has_trailer-Returns buf payload_at) ended)
    where
      ended :
          (b : Bool)
          → (b ≡ true → i + 2 + name_len + 3 + 12 ≤ length buf)
          → Returns (IsVariable buf i) (
              if b
              then (do
                b9 ← read buf (i + 2 + name_len + 3 + 9)
                b10 ← read buf (i + 2 + name_len + 3 + 10)
                some (
                  record (record (variable_of buf i name_len
                      (word_at buf (i + 2 + name_len + 3 + 1))) {
                        type_marker = b0;
                        is_primitive = true;
                      }) { has_trailer = true; trailer_type_id = or16 b9 b10 },
                  i + 2 + name_len + 3 + 12,
                ))
              else some (
                record (variable_of buf i name_len (word_at buf (i + 2 + name_len + 3 + 1))) {
                  type_marker = b0;
                  is_primitive = true;
                },
                i + 2 + name_len + 3 + 5,
              ))
      ended true h =
          let room = h refl in
          let b9_read : read buf (i + 2 + name_len + 3 + 9)
              ≡ some (at buf (i + 2 + name_len + 3 + 9)) =
            ground arith in
          let b10_read : read buf (i + 2 + name_len + 3 + 10)
              ≡ some (at buf (i + 2 + name_len + 3 + 10)) =
            ground arith in
          rw (b9_read, b10_read)
            (record { begins = refl; holds = omega (arith, name_short); inside = room })
      ended false h = record {
        begins = refl;
        holds = omega (arith, name_short);
        inside = omega arith;
      }

  other_form-IsVariable :
      (b0 : ℕ) → Returns (IsVariable buf i) (other_form buf i name_len (i + 2 + name_len + 3) b0)
  unfolding other_form
  other_form-IsVariable b0 =
      let payload_at = i + 2 + name_len + 3 in
      let b1_read : read buf (payload_at + 1) ≡ some (at buf (payload_at + 1)) = ground arith in
      rw (b1_read, read_u32_lem buf (payload_at + 2) (omega arith))
        (record { begins = refl; holds = omega (arith, name_short); inside = omega arith })

  payload-IsVariable : Returns (IsVariable buf i) (payload buf i name_len (i + 2 + name_len + 3))
  unfolding payload
  payload-IsVariable =
      let payload_at = i + 2 + name_len + 3 in
      ground (
        arith,
        primitive_form-IsVariable (at buf payload_at),
        other_form-IsVariable (at buf payload_at),
      )

-- What a round finds is no variable of a procedure.
abbrev pub IsFoundIn : List ProcedureRecord → Bytes → ℕ → Variable × ℕ → Type 0
IsFoundIn procs buf i r = IsVariable buf i r × (is_inside_procedure procs i ≡ false)

variable_at-IsFoundIn :
    (procs : List ProcedureRecord) (buf : Bytes) (i : ℕ)
    → i + 8 < length buf
    → Returns (IfFound (IsFoundIn procs buf i)) (variable_at procs buf i)
unfolding variable_at
variable_at-IsFoundIn procs buf i h = ground (
  arith,
  is_printable_name-Returns buf (i + 2) (at buf (i + 1)),
  payload-IsVariable buf i (at buf (i + 1)),
)

-- The variables lie one behind the other between two indices, each outside the procedures.
abbrev pub AreFound : List ProcedureRecord → ℕ → List Variable → ℕ → Type 0
AreFound procs lo [] hi = lo ≤ hi
AreFound procs lo (v ∷ vs) hi =
    (lo ≤ v.file_offset)
    × (IsCovered v.file_offset procs → ⊥)
    × AreFound procs (v.file_offset + 10 + length v.name) vs hi

AreFound-push :
    (procs : List ProcedureRecord) (lo : ℕ) (vs : List Variable) (mid : ℕ) (v : Variable) (hi : ℕ)
    → AreFound procs lo vs mid
    → mid ≤ v.file_offset
    → (IsCovered v.file_offset procs → ⊥)
    → v.file_offset + 10 + length v.name ≤ hi
    → AreFound procs lo (vs ++ v ∷ []) hi
AreFound-push procs lo [] mid v hi h later outside fits = (omega arith, outside, fits)
AreFound-push procs lo (w ∷ ws) mid v hi (a, b, rest) later outside fits = (
  a,
  b,
  AreFound-push procs (w.file_offset + 10 + length w.name) ws mid v hi rest later outside fits,
)

AreFound-up :
    (procs : List ProcedureRecord) (lo : ℕ) (vs : List Variable) (mid hi : ℕ)
    → AreFound procs lo vs mid
    → mid ≤ hi
    → AreFound procs lo vs hi
AreFound-up procs lo [] mid hi h up = omega arith
AreFound-up procs lo (w ∷ ws) mid hi (a, b, rest) up =
    (a, b, AreFound-up procs (w.file_offset + 10 + length w.name) ws mid hi rest up)

uncovered :
    (procs : List ProcedureRecord) (lo hi off : ℕ)
    → InOrder lo procs hi
    → is_inside_procedure procs off ≡ false
    → IsCovered off procs
    → ⊥
uncovered procs lo hi off ordered outside c =
    let inside : is_inside_procedure procs off ≡ true =
      (is_inside_procedure_iff off lo procs hi ordered).1 c in
    ground arith

module _ (procs : List ProcedureRecord) (buf : Bytes) (from : ℕ)
    (ordered : InOrder from procs (length buf)) where
  scan_variables_from-AreFound :
      (fuel lo i : ℕ) (out : List Variable)
      → AreFound procs lo out i
      → i ≤ length buf
      → length buf < fuel + i
      → Returns (λ vs. AreFound procs lo vs (length buf)) (scan_variables_from fuel procs buf i out)
  unfolding scan_variables_from
  scan_variables_from-AreFound zero lo i out found inside enough = absurd (omega arith)
  scan_variables_from-AreFound (suc fuel) lo i out found inside enough =
      elim (Bool-cases (leb (length buf) (i + 8))) [
        | inl near_end ↦ rw near_end (AreFound-up procs lo out i (length buf) found inside)
        | inr far ↦ rw far (
            let more : i + 8 < length buf = ground arith in
            Returns-bind (IfFound (IsFoundIn procs buf i)) (λ vs. AreFound procs lo vs (length buf))
              (variable_at procs buf i) _ (variable_at-IsFoundIn procs buf i more)
              (after more λ next out' later end found'.
                scan_variables_from-AreFound fuel lo next out' found' end (omega arith)))
      ]
    where
      after :
          i + 8 < length buf
          → ((next : ℕ) (out' : List Variable)
              → i < next
              → next ≤ length buf
              → AreFound procs lo out' next
              → Returns
                  (λ vs. AreFound procs lo vs (length buf))
                  (scan_variables_from fuel procs buf next out'))
          → (r : Option (Variable × ℕ)) → IfFound (IsFoundIn procs buf i) r
          → Returns
              (λ vs. AreFound procs lo vs (length buf))
              (elim r [
                | none ↦ scan_variables_from fuel procs buf (i + 1) out
                | some (v, next) ↦ scan_variables_from fuel procs buf next (out ++ v ∷ [])
              ])
      after more again none h =
          again (i + 1) out (omega arith) (omega arith)
            (AreFound-up procs lo out i (i + 1) found (omega arith))
      after more again (some (v, next)) (h, outside) =
          let begins = h.begins in
          let holds = h.holds in
          again next (out ++ v ∷ []) (omega arith) h.inside (
            AreFound-push procs lo out i v next found (omega arith)
              (subst (λ x. IsCovered x procs → ⊥) (sym begins)
                (uncovered procs from (length buf) i ordered outside))
              (omega arith))

-- The two scans end on every buffer and read inside it only. The procedures lie one behind the
-- other inside the buffer, at the offset 0x426 or behind it. So do the variables, each with room
-- for ten bytes and its name, and where a variable begins there is no procedure.
pub scan_procedures_and_variables-Returns :
    (buf : Bytes)
    → Returns
        (λ r.
          InOrder (min 0x426 (length buf)) r.0 (length buf)
          × AreFound r.0 (min 0x426 (length buf)) r.1 (length buf))
        (scan_procedures_and_variables buf)
unfolding scan_procedures_and_variables scan_variables
scan_procedures_and_variables-Returns buf =
    let lo = min 0x426 (length buf) in
    Returns-bind (λ ps. InOrder lo ps (length buf))
      (λ r. InOrder lo r.0 (length buf) × AreFound r.0 lo r.1 (length buf)) (scan_procedures buf) _
      (scan_procedures-InOrder buf)
      (λ ps ordered.
        Returns-bind (λ vs. AreFound ps lo vs (length buf))
          (λ r. InOrder lo r.0 (length buf) × AreFound r.0 lo r.1 (length buf))
          (scan_variables ps buf) _
          (scan_variables_from-AreFound ps buf lo ordered (length buf + 1) lo lo [] (omega arith)
            (omega arith) (omega arith))
          (λ vs found. (ordered, found)))
