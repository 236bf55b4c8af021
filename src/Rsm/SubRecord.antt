-- ===== src/Rsm/SubRecord.antt =====
-- src/rsm/rsm_procs_vars.cpp, the lambda `parseSub`: a parameter or local inside a procedure record.
-- The outer `none` is a read outside the buffer, the inner one is `ok == false`. Where a condition
-- reads two bytes the model reads both, also where the first decides.
pub mod Sound
use vscode_delphi_extension.Base.{
  ℕ, zero, suc, ◌+◌, ◌-◌, ◌%◌, min, Bool, true, false, not, ◌&&◌, ◌||◌, Option, none, some, List,
  [], ◌∷◌, ◌==◌, ltb, leb, if◌then◌else◌, ◌>>=◌, ℤ, pos, ◌-ℤ◌, half, Bytes, length, read, to_i8,
  to_i16, or16,
}
use vscode_delphi_extension.Rsm.Internal.{
  tag_variable, tag_param, tag_var_param, var_payload_sub_tag, is_printable_name,
}

pub record SubRec : Type 0 where
  pub tag : ℕ
  pub namelen : ℕ
  pub name_at : ℕ
  pub subtag : ℕ
  pub marker : ℕ
  pub type_hash : ℕ
  pub is_primitive : Bool
  pub stored_off : ℤ
  pub total_size : ℕ

abbrev pub is_sub_tag : ℕ → Bool
is_sub_tag b = b == tag_variable || b == tag_param || b == tag_var_param

abbrev pub is_known_next_tag : ℕ → Bool
is_known_next_tag b =
    b == 0x20
    || b == 0x21
    || b == 0x22
    || b == 0x23
    || b == 0x25
    || b == 0x28
    || b == 0x2A
    || b == 0x63

-- Behind a subtag of one byte or of two.
unfoldable pub find_marker : Bytes → ℕ → Option (Option ℕ)
find_marker buf body_at = do
  b1 ← read buf (body_at + 1)
  b2 ← read buf (body_at + 2)
  b3 ← read buf (body_at + 3)
  some (
      if b1 == 0 && b2 == 0
      then some (body_at + 3)
      else if b2 == 0 && b3 == 0
      then some (body_at + 4)
      else none)

-- The loop over `k`, with the rounds that are left.
unfoldable pub find_next_tag : ℕ → Bytes → ℕ → Option (Option ℕ)
find_next_tag zero buf k = some none
find_next_tag (suc n) buf k =
    let rest = find_next_tag n buf (k + 1) in
    (do b ← read buf k; (if is_known_next_tag b then some (some k) else rest))

-- `composite_form`, from the length of the body.
unfoldable pub composite_form : Bytes → ℕ → ℕ → ℕ → Option (Option Bool)
composite_form buf body_at mb0 body_len =
    if body_len == 5
    then some (some false)
    else if body_len == 7
    then some (some true)
    else if body_len == 6
    then (if mb0 % 2 == 1
        then some (some true)
        else (do b4 ← read buf (body_at + 4); some (some (not (b4 % 2 == 1)))))
    else some none

-- What the type reference says, and where the offset begins.
pub record TypeRef : Type 0 where
  pub is_primitive : Bool
  pub marker : ℕ
  pub type_hash : ℕ
  pub offset_at : ℕ

unfoldable pub type_ref : Bytes → ℕ → ℕ → ℕ → ℕ → Option (Option TypeRef)
unfolding find_next_tag composite_form
type_ref buf body_at marker_at subtag mb0 =
    if not (subtag == var_payload_sub_tag)
    then some (
        some
          (record { is_primitive = false; marker = mb0; type_hash = 0; offset_at = marker_at + 1 }))
    else (do
      let max_body_end = min (body_at + 16) (length buf - 1)
      next ← find_next_tag (max_body_end + 1 - (body_at + 5)) buf (body_at + 5)
      elim next [
        | none ↦ some none
        | some body_end ↦ (do
          form ← composite_form buf body_at mb0 (body_end - body_at)
          elim form [
            | none ↦ some none
            | some true ↦ if ltb (length buf) (marker_at + 2) then some none else (do
              mb1 ← read buf (marker_at + 1)
              some (
                  some (record {
                    is_primitive = false;
                    marker = 0;
                    type_hash = or16 mb0 mb1;
                    offset_at = marker_at + 2;
                  })))
            | some false ↦ some (
                some (record {
                  is_primitive = true;
                  marker = mb0;
                  type_hash = 0;
                  offset_at = marker_at + 1;
                }))
          ])
      ])

-- The stack offset and the index behind it.
unfoldable pub stored_offset : Bytes → ℕ → Option (Option (ℤ × ℕ))
stored_offset buf offset_at = if leb (length buf) offset_at then some none else (do
  b0 ← read buf offset_at
  (if b0 % 2 == 0
      then some (some (to_i8 b0, offset_at + 1))
      else if leb (length buf) (offset_at + 2)
      then some none
      else (do
        b1 ← read buf (offset_at + 1)
        some (some (half (to_i16 (or16 b0 b1) -ℤ pos 1), offset_at + 2)))))

-- The record with its offset, if that was read.
unfoldable pub with_offset : ℕ → ℕ → ℕ → ℕ → TypeRef → Option (ℤ × ℕ) → Option SubRec
with_offset s tag nl subtag r none = none
with_offset s tag nl subtag r (some (stored, behind)) = some (record {
  tag = tag;
  namelen = nl;
  name_at = s + 2;
  subtag = subtag;
  marker = r.marker;
  type_hash = r.type_hash;
  is_primitive = r.is_primitive;
  stored_off = stored;
  total_size = behind - s;
})

unfoldable pub with_ref : Bytes → ℕ → ℕ → ℕ → ℕ → Option TypeRef → Option (Option SubRec)
unfolding stored_offset with_offset
with_ref buf s tag nl subtag none = some none
with_ref buf s tag nl subtag (some r) = do
  off ← stored_offset buf r.offset_at
  some (with_offset s tag nl subtag r off)

-- From the marker on.
unfoldable pub parse_body : Bytes → ℕ → ℕ → ℕ → ℕ → ℕ → Option (Option SubRec)
unfolding type_ref with_ref
parse_body buf s tag nl body_at marker_at = do
  subtag ← read buf body_at
  mb0 ← read buf marker_at
  ref ← type_ref buf body_at marker_at subtag mb0
  with_ref buf s tag nl subtag ref

-- From the length of the name on.
unfoldable pub parse_named : Bytes → ℕ → ℕ → ℕ → Option (Option SubRec)
unfolding find_marker parse_body
parse_named buf s tag nl =
    let body_at = s + 2 + nl in
    if leb (length buf) (body_at + 5) then some none else (do
      found ← find_marker buf body_at
      elim found [
        | none ↦ some none
        | some marker_at ↦ if leb (length buf) (marker_at + 1) then some none else (do
          printable ← is_printable_name buf (s + 2) nl
          (if not printable then some none else parse_body buf s tag nl body_at marker_at))
      ])

unfoldable pub parse_sub : Bytes → ℕ → Option (Option SubRec)
unfolding parse_named
parse_sub buf s = if leb (length buf) (s + 8) then some none else (do
  tag ← read buf s
  (if not (is_sub_tag tag) then some none else (do
    nl ← read buf (s + 1)
    (if nl == 0 || ltb 64 nl then some none else parse_named buf s tag nl))))
