-- ===== src/Rsm/Variables.antt =====
-- src/rsm/rsm_procs_vars.cpp: the scan for global variables behind the scan for procedures, and
-- the two together. `none` is a read outside the buffer, or a loop that ran out of fuel.
pub mod Inside
pub mod Order
use vscode_delphi_extension.Base.{
  ℕ, zero, suc, ◌+◌, ◌%◌, ◌/◌, ◌^◌, min, Bool, true, false, not, ◌&&◌, ◌||◌, Option, none, some,
  List, [], ◌∷◌, ◌++◌, ◌==◌, ltb, leb, if◌then◌else◌, ◌>>=◌, pos, Bytes, length, read, read_u32,
  or16,
}
use vscode_delphi_extension.Rsm.Types.{Variable, ProcedureRecord}
use vscode_delphi_extension.Rsm.Internal.{
  tag_variable, record_terminator, var_payload_sub_tag, var_trailer_marker_0, var_trailer_marker_1,
  is_printable_name,
}
use vscode_delphi_extension.Rsm.Procedures.{string_at, scan_procedures}

-- The element before `std::upper_bound` by file offset, if there is one.
unfoldable pub prior : ℕ → Option ProcedureRecord → List ProcedureRecord → Option ProcedureRecord
prior off best [] = best
prior off best (p ∷ ps) = if ltb off p.file_offset then best else prior off (some p) ps

unfoldable pub is_inside_procedure : List ProcedureRecord → ℕ → Bool
unfolding prior
is_inside_procedure procs off = elim (prior off none procs) [
  | none ↦ false
  | some p ↦ ltb off p.file_offset_end
]

-- A variable with the fields that both forms give.
abbrev pub variable_of : Bytes → ℕ → ℕ → ℕ → Variable
variable_of buf i name_len shifted = record {
  name = string_at buf (i + 2) name_len;
  address = shifted / 2 ^ 4;
  stack_offset = pos 0;
  inline_type_id = 0;
  trailer_type_id = 0;
  type_marker = 0;
  is_primitive = false;
  has_trailer = false;
  file_offset = i;
  pascal_type = [];
  unit_anchor_offset = 0;
}

unfoldable pub has_trailer : Bytes → ℕ → Option Bool
has_trailer buf payload_at =
    if leb (payload_at + 12) (length buf)
    then (do
      b5 ← read buf (payload_at + 5)
      b6 ← read buf (payload_at + 6)
      b11 ← read buf (payload_at + 11)
      some (b5 == var_trailer_marker_0 && b6 == var_trailer_marker_1 && b11 == record_terminator))
    else some false

-- The two forms, and the index behind the record.
unfoldable pub primitive_form : Bytes → ℕ → ℕ → ℕ → ℕ → Option (Variable × ℕ)
unfolding has_trailer
primitive_form buf i name_len payload_at b0 = do
  shifted ← read_u32 buf (payload_at + 1)
  let v = record (variable_of buf i name_len shifted) { type_marker = b0; is_primitive = true }
  trailer ← has_trailer buf payload_at
  (if trailer
      then (do
        b9 ← read buf (payload_at + 9)
        b10 ← read buf (payload_at + 10)
        some (record v { has_trailer = true; trailer_type_id = or16 b9 b10 }, payload_at + 12))
      else some (v, payload_at + 5))

unfoldable pub other_form : Bytes → ℕ → ℕ → ℕ → ℕ → Option (Variable × ℕ)
other_form buf i name_len payload_at b0 = do
  b1 ← read buf (payload_at + 1)
  shifted ← read_u32 buf (payload_at + 2)
  some (record (variable_of buf i name_len shifted) { inline_type_id = or16 b0 b1 }, payload_at + 6)

abbrev pub is_primitive_shape : ℕ → Bool
is_primitive_shape b0 = not (b0 == 0) && ltb b0 0x40 && b0 % 2 == 0

unfoldable pub payload : Bytes → ℕ → ℕ → ℕ → Option (Variable × ℕ)
unfolding primitive_form other_form
payload buf i name_len payload_at = do
  b0 ← read buf payload_at
  (if is_primitive_shape b0
      then primitive_form buf i name_len payload_at b0
      else other_form buf i name_len payload_at b0)

-- The round at `i`: `some none` is `++i; continue`.
unfoldable pub variable_at : List ProcedureRecord → Bytes → ℕ → Option (Option (Variable × ℕ))
unfolding payload
variable_at procs buf i = do
  tag ← read buf i
  name_len ← read buf (i + 1)
  let sub_tag_at = i + 2 + name_len
  (if not (tag == tag_variable)
      then some none
      else if is_inside_procedure procs i
      then some none
      else if name_len == 0 || ltb 64 name_len
      then some none
      else if leb (length buf) (sub_tag_at + 3)
      then some none
      else (do
        s0 ← read buf sub_tag_at
        s1 ← read buf (sub_tag_at + 1)
        s2 ← read buf (sub_tag_at + 2)
        (if not (s0 == var_payload_sub_tag && s1 == 0 && s2 == 0) then some none else (do
          printable ← is_printable_name buf (i + 2) name_len
          (if not printable
              then some none
              else if ltb (length buf) (sub_tag_at + 3 + 6)
              then some none
              else (do r ← payload buf i name_len (sub_tag_at + 3); some (some r)))))))

-- The loop over `i`.
unfoldable pub scan_variables_from :
    ℕ → List ProcedureRecord → Bytes → ℕ → List Variable → Option (List Variable)
unfolding variable_at
scan_variables_from zero procs buf i out = none
scan_variables_from (suc fuel) procs buf i out = if leb (length buf) (i + 8) then some out else (do
  r ← variable_at procs buf i
  elim r [
    | none ↦ scan_variables_from fuel procs buf (i + 1) out
    | some (v, next) ↦ scan_variables_from fuel procs buf next (out ++ v ∷ [])
  ])

unfoldable pub scan_variables : List ProcedureRecord → Bytes → Option (List Variable)
unfolding scan_variables_from
scan_variables procs buf =
    scan_variables_from (length buf + 1) procs buf (min 0x426 (length buf)) []

unfoldable pub scan_procedures_and_variables : Bytes → Option (List ProcedureRecord × List Variable)
unfolding scan_variables
scan_procedures_and_variables buf = do
  procs ← scan_procedures buf
  vars ← scan_variables procs buf
  some (procs, vars)
