-- ===== src/Rsm/Primitives.antt =====
-- src/rsm/rsm_primitives.cpp: the table of primitive types. `none` is a read outside the buffer, or
-- a loop that ran out of fuel.
pub mod Sound
use vscode_delphi_extension.Base.{
  ℕ, zero, suc, ◌+◌, ◌-◌, min, Bool, true, false, not, ◌&&◌, ◌||◌, Option, none, some, List, [],
  ◌∷◌, ◌++◌, ◌==◌, ltb, leb, if◌then◌else◌, ◌>>=◌, Bytes, codes, length, read, or16,
}
use vscode_delphi_extension.Rsm.Types.{Primitive}
use vscode_delphi_extension.Rsm.Internal.{
  tag_primitive, record_terminator, type_id_marker_0, type_id_marker_1, lookup_primitive_desc,
  find_bytes,
}
use vscode_delphi_extension.Rsm.Procedures.{string_at}

abbrev pub boolean_sig : Bytes
boolean_sig = 0x2A ∷ 0x07 ∷ (codes "Boolean" ++ (0xA8 ∷ 0 ∷ 0 ∷ []))

abbrev pub is_letter : ℕ → Bool
is_letter c = leb b'A' c && leb c b'Z' || leb b'a' c && leb c b'z'

unfoldable pub looks_like_primitive_start : Bytes → ℕ → Option Bool
looks_like_primitive_start buf i = if ltb (length buf) (i + 3) then some false else (do
  tag ← read buf i
  len ← read buf (i + 1)
  c ← read buf (i + 2)
  some (
      tag == tag_primitive
      && not (len == 0 || ltb 32 len)
      && leb (i + 2 + len) (length buf)
      && is_letter c))

-- The loop that looks for the next record, with the rounds that are left.
unfoldable pub find_next_record : ℕ → Bytes → ℕ → Option (Option ℕ)
unfolding looks_like_primitive_start
find_next_record zero buf i = some none
find_next_record (suc n) buf i =
    let rest = find_next_record n buf (i + 1) in
    (do
      b ← read buf i
      starts ← looks_like_primitive_start buf (i + 1)
      (if b == record_terminator && starts then some (some (i + 1)) else rest))

-- The loop that looks for the type id, which is 0 without a marker.
unfoldable pub find_type_id : ℕ → Bytes → ℕ → Option ℕ
find_type_id zero buf i = some 0
find_type_id (suc n) buf i =
    let rest = find_type_id n buf (i + 1) in
    (do
      b0 ← read buf i
      b1 ← read buf (i + 1)
      b2 ← read buf (i + 2)
      b3 ← read buf (i + 3)
      (if b0 == type_id_marker_0 && b1 == type_id_marker_1 then some (or16 b2 b3) else rest))

-- The list with the record at `pos`, if its name is known.
unfoldable pub push_primitive : List Primitive → Bytes → ℕ → ℕ → List Primitive
push_primitive prims name type_id pos = elim (lookup_primitive_desc name) [
  | some desc ↦
      prims
      ++ (record {
        name = name;
        kind = desc.kind;
        byte_size = desc.byte_size;
        raw_type_id = type_id;
        file_offset = pos;
      })
        ∷ []
  | none ↦ prims
]

-- The record at `pos` behind its guards: the list, and where the next record is.
unfoldable pub read_primitive : List Primitive → Bytes → ℕ → ℕ → Option (List Primitive × Option ℕ)
unfolding find_next_record find_type_id push_primitive
read_primitive prims buf pos name_len = do
  let name_end = pos + 2 + name_len
  let cap = min (length buf) (pos + 256)
  next_rec ← find_next_record (cap - 3 - name_end) buf name_end
  let rec_end : ℕ = elim next_rec [ some next ↦ next | none ↦ cap ]
  type_id ← find_type_id (rec_end + 1 - (name_end + 4)) buf name_end
  some (push_primitive prims (string_at buf (pos + 2) name_len) type_id pos, next_rec)

-- A round; no next record is `break`.
unfoldable pub primitive_round : List Primitive → Bytes → ℕ → Option (List Primitive × Option ℕ)
unfolding read_primitive
primitive_round prims buf pos = do
  tag ← read buf pos
  (if not (tag == tag_primitive)
      then some (prims, none)
      else if ltb (length buf) (pos + 2)
      then some (prims, none)
      else (do
        name_len ← read buf (pos + 1)
        (if ltb (length buf) (pos + 2 + name_len) || name_len == 0
            then some (prims, none)
            else read_primitive prims buf pos name_len)))

unfoldable pub primitives_from : ℕ → List Primitive → Bytes → ℕ → Option (List Primitive)
unfolding primitive_round
primitives_from zero prims buf pos = none
primitives_from (suc fuel) prims buf pos =
    if leb 64 (length prims) || leb (length buf) pos then some prims else (do
      (prims', next_rec) ← primitive_round prims buf pos
      elim next_rec [ none ↦ some prims' | some next ↦ primitives_from fuel prims' buf next ])

unfoldable pub scan_primitive_table : Bytes → Option (List Primitive)
unfolding primitives_from
scan_primitive_table buf =
    elim (find_bytes buf (min 0x400 (length buf)) (min 0x10000 (length buf)) boolean_sig) [
      | none ↦ some []
      | some boolean_at ↦ primitives_from (length buf + 1) [] buf boolean_at
    ]
