-- ===== src/Rsm/Procedures.antt =====
-- src/rsm/rsm_procs_vars.cpp, the lambda `scanProcedures`. `none` is a read outside the buffer, or
-- a loop that ran out of fuel; the counters of rejected records are left out.
pub mod Sound
pub mod Order
use vscode_delphi_extension.Base.{
  ℕ, zero, suc, ◌+◌, ◌-◌, ◌/◌, ◌^◌, min, Bool, true, false, not, ◌&&◌, ◌||◌, Option, none, some,
  List, [], ◌∷◌, ◌++◌, ◌==◌, ltb, leb, if◌then◌else◌, ◌>>=◌, pos, Bytes, length, take, drop, read,
  read_u32,
}
use vscode_delphi_extension.Rsm.Types.{Variable, ProcedureRecord}
use vscode_delphi_extension.Rsm.Internal.{
  tag_primitive, tag_variable, tag_function, function_end_marker, function_sub_tag_nested,
  record_terminator, type_id_marker_0, is_printable_name,
}
use vscode_delphi_extension.Rsm.SubRecord.{SubRec, is_sub_tag, parse_sub}

-- `std::string(buf.data() + at, n)`, where the bytes are known to be there.
abbrev pub string_at : Bytes → ℕ → ℕ → Bytes
string_at buf i n = take n (drop i buf)

-- What may stand behind the end marker of a procedure.
abbrev pub is_after_end : ℕ → Bool
is_after_end nx =
    nx == tag_function
    || nx == tag_variable
    || nx == tag_primitive
    || nx == record_terminator
    || nx == type_id_marker_0

-- An end marker with a known byte behind it.
unfoldable pub ends_at : Bytes → ℕ → ℕ → Option Bool
ends_at buf tb t =
    if tb == function_end_marker && ltb (t + 1) (length buf)
    then (do nx ← read buf (t + 1); some (is_after_end nx))
    else some false

unfoldable pub sub_at : Bytes → ℕ → ℕ → Option Bool
sub_at buf tb t =
    if is_sub_tag tb
    then (do r ← parse_sub buf t; some (elim r [ none ↦ false | some sub ↦ true ]))
    else some false

-- The loop over `t`, with the rounds that are left: the first sub-record, or the end marker.
unfoldable pub find_first_sub : ℕ → Bytes → ℕ → Option (Option (ℕ × Bool))
unfolding ends_at sub_at
find_first_sub zero buf t = some none
find_first_sub (suc n) buf t =
    let rest = find_first_sub n buf (t + 1) in
    (do
      tb ← read buf t
      is_sub ← sub_at buf tb t
      is_end ← ends_at buf tb t
      (if is_sub then some (some (t, false)) else if is_end then some (some (t, true)) else rest))

-- The inner `while` that looks for the next sub-record or end marker in the next bytes.
unfoldable pub re_anchor : ℕ → Bytes → ℕ → Option ℕ
unfolding ends_at sub_at
re_anchor zero buf s = some s
re_anchor (suc n) buf s =
    let rest = re_anchor n buf (s + 1) in
    (do
      tb ← read buf s
      is_end ← ends_at buf tb s
      is_sub ← sub_at buf tb s
      (if is_end || is_sub then some s else rest))

-- The wide scan behind an unknown tag.
unfoldable pub wide_scan : ℕ → Bytes → ℕ → Option (Option ℕ)
unfolding sub_at
wide_scan zero buf ns = some none
wide_scan (suc n) buf ns =
    let rest = wide_scan n buf (ns + 1) in
    (do
      t2 ← read buf ns
      is_sub ← sub_at buf t2 ns
      (if t2 == function_end_marker || is_sub then some (some ns) else rest))

-- The variable of a sub-record at `s`.
unfoldable pub sub_variable : Bytes → ℕ → SubRec → Variable
sub_variable buf s sub = record {
  name = string_at buf sub.name_at sub.namelen;
  address = 0;
  stack_offset = sub.stored_off;
  inline_type_id = if sub.is_primitive then 0 else sub.type_hash;
  trailer_type_id = 0;
  type_marker = if sub.is_primitive then sub.marker else 0;
  is_primitive = sub.is_primitive;
  has_trailer = false;
  file_offset = s;
  pascal_type = [];
  unit_anchor_offset = 0;
}

-- The variables of the walk.
pub record Walk : Type 0 where
  pub params : List Variable
  pub locals : List Variable
  pub next : ℕ

unfoldable pub add_sub : Bytes → Walk → ℕ → SubRec → Walk
unfolding sub_variable
add_sub buf w s sub =
    let v = sub_variable buf s sub in
    if sub.tag == tag_variable
    then record w { locals = w.locals ++ v ∷ []; next = s + sub.total_size }
    else record w { params = w.params ++ v ∷ []; next = s + sub.total_size }

-- Leave the loop, or go on with it.
pub data Walked : Type 0 where
  leave : Walk → Walked
  go_on : Walk → Walked

-- A round behind the search for an anchor, at `s`.
unfoldable pub walk_at : Bytes → Walk → ℕ → Option Walked
unfolding wide_scan add_sub
walk_at buf w s = do
  tag ← read buf s
  (if tag == function_end_marker
      then some (leave (record w { next = s + 1 }))
      else if not (is_sub_tag tag)
      then (do
        found ← wide_scan (min (s + 1024) (length buf - 8) - (s + 1)) buf (s + 1)
        some (elim found [
          | none ↦ leave (record w { next = s })
          | some ns ↦ go_on (record w { next = ns })
        ]))
      else (do
        r ← parse_sub buf s
        some (elim r [
          | none ↦ leave (record w { next = s })
          | some sub ↦ go_on (add_sub buf w s sub)
        ])))

-- One round.
unfoldable pub walk_round : Bytes → Walk → Option Walked
unfolding re_anchor walk_at
walk_round buf w = if leb (length buf) (w.next + 8) then some (leave w) else (do
  s ← re_anchor (min (w.next + 6) (length buf - 8) - w.next) buf w.next
  (if leb (length buf) (s + 8) then some (leave (record w { next = s })) else walk_at buf w s))

-- The loop over the sub-records of a procedure.
unfoldable pub walk : ℕ → Bytes → Walk → Option Walk
unfolding walk_round
walk zero buf w = none
walk (suc fuel) buf w = do
  r ← walk_round buf w
  elim r [ leave w' ↦ some w' | go_on w' ↦ walk fuel buf w' ]

-- Where the address lies.
unfoldable pub va_offset : ℕ → ℕ → ℕ
va_offset sub_tag head_end =
    if sub_tag == 0x20
    then head_end + 3
    else if sub_tag == function_sub_tag_nested
    then head_end + 4
    else head_end + 7

-- A procedure record with no more than its head.
unfoldable pub proc_head : Bytes → ℕ → ℕ → ℕ → ℕ → ProcedureRecord
proc_head buf pi name_len shifted sub_tag = record {
  name = string_at buf (pi + 2) name_len;
  address = shifted / 2 ^ 4;
  params = [];
  locals = [];
  file_offset = pi;
  file_offset_end = 0;
  has_static_link = sub_tag == function_sub_tag_nested;
}

-- What follows the search for the first sub-record.
unfoldable pub proc_from :
    Bytes → ProcedureRecord → Option (ℕ × Bool) → Option (Option (ProcedureRecord × ℕ))
unfolding walk
proc_from buf proc none = some none
proc_from buf proc (some (at_end, true)) =
    some (some (record proc { file_offset_end = at_end + 1 }, at_end + 1))
proc_from buf proc (some (first_sub, false)) = do
  w ← walk (length buf + 1) buf (record { params = []; locals = []; next = first_sub })
  some (
      some (record proc { params = w.params; locals = w.locals; file_offset_end = w.next }, w.next))

-- Behind the tests of the head.
unfoldable pub proc_body : Bytes → ℕ → ℕ → ℕ → Option (Option (ProcedureRecord × ℕ))
unfolding find_first_sub va_offset proc_head proc_from
proc_body buf pi name_len sub_tag = do
  let va_off = va_offset sub_tag (pi + 2 + name_len)
  shifted ← read_u32 buf va_off
  let scan_from = va_off + 4
  first ← find_first_sub (min (scan_from + 96) (length buf - 8) - scan_from) buf scan_from
  proc_from buf (proc_head buf pi name_len shifted sub_tag) first

abbrev pub is_function_sub_tag : ℕ → Bool
is_function_sub_tag b =
    b == 0xA0 || b == 0xE0 || b == 0x80 || b == 0x20 || b == function_sub_tag_nested

-- The round at `pi`: `some none` is `++pi; continue`.
unfoldable pub proc_at : Bytes → ℕ → Option (Option (ProcedureRecord × ℕ))
unfolding proc_body
proc_at buf pi = do
  tag ← read buf pi
  name_len ← read buf (pi + 1)
  let head_end = pi + 2 + name_len
  (if not (tag == tag_function)
      then some none
      else if ltb name_len 2 || ltb 200 name_len
      then some none
      else if leb (length buf) (head_end + 14)
      then some none
      else (do
        sub_tag ← read buf head_end
        z1 ← read buf (head_end + 1)
        z2 ← read buf (head_end + 2)
        (if not (is_function_sub_tag sub_tag)
            then some none
            else if not (sub_tag == function_sub_tag_nested) && not (z1 == 0 && z2 == 0)
            then some none
            else (do
              printable ← is_printable_name buf (pi + 2) name_len
              (if not printable then some none else proc_body buf pi name_len sub_tag)))))

-- The loop over `pi`.
unfoldable pub scan_procedures_from :
    ℕ → Bytes → ℕ → List ProcedureRecord → Option (List ProcedureRecord)
unfolding proc_at
scan_procedures_from zero buf pi out = none
scan_procedures_from (suc fuel) buf pi out = if leb (length buf) (pi + 16) then some out else (do
  r ← proc_at buf pi
  elim r [
    | none ↦ scan_procedures_from fuel buf (pi + 1) out
    | some (proc, next) ↦ scan_procedures_from fuel buf next (out ++ proc ∷ [])
  ])

unfoldable pub scan_procedures : Bytes → Option (List ProcedureRecord)
unfolding scan_procedures_from
scan_procedures buf = scan_procedures_from (length buf + 1) buf (min 0x426 (length buf)) []
