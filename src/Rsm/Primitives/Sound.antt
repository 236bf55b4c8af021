-- ===== src/Rsm/Primitives/Sound.antt =====
-- The scan of the primitive table on every buffer.
use vscode_delphi_extension.Base.{
  ℕ, zero, suc, ◌+◌, ◌-◌, ◌≤◌, ◌<◌, ◌≡◌, refl, min, ◌||◌, Option, none, some, List, [], ◌∷◌, ◌++◌,
  leb, ◌>>=◌, Bytes, length, length-append, length-take, drop, at, Returns, Returns-bind, arith,
  Bool-cases, inl, inr,
}
use vscode_delphi_extension.Rsm.Types.{Primitive}
use vscode_delphi_extension.Rsm.Internal.{PrimitiveDesc, lookup_primitive_desc, find_bytes}
use vscode_delphi_extension.Rsm.Internal.Search.{IsFirst, find_bytes-IsFirst}
use vscode_delphi_extension.Rsm.SubRecord.Sound.{IfFound}
use vscode_delphi_extension.Rsm.Procedures.{string_at}
use vscode_delphi_extension.Rsm.Primitives.{
  looks_like_primitive_start, find_next_record, find_type_id, push_primitive, read_primitive,
  primitive_round, primitives_from, scan_primitive_table, boolean_sig,
}

looks_like_primitive_start-Returns :
    (buf : Bytes) (i : ℕ) → Returns (λ b. Unit {0}) (looks_like_primitive_start buf i)
unfolding looks_like_primitive_start
looks_like_primitive_start-Returns buf i = ground arith

find_next_record-Returns :
    (n : ℕ) (buf : Bytes) (i : ℕ)
    → i + n ≤ length buf
    → Returns (IfFound (λ next. (i < next) × (next ≤ i + n))) (find_next_record n buf i)
unfolding find_next_record
find_next_record-Returns zero buf i h = tt
find_next_record-Returns (suc n) buf i h = ground (
  arith,
  looks_like_primitive_start-Returns buf (i + 1),
  find_next_record-Returns n buf (i + 1) (omega arith),
)

find_type_id-Returns :
    (n : ℕ) (buf : Bytes) (i : ℕ)
    → n ≤ length buf - (i + 3)
    → Returns (λ b. Unit {0}) (find_type_id n buf i)
unfolding find_type_id
find_type_id-Returns zero buf i h = tt
find_type_id-Returns (suc n) buf i h =
    ground (arith, find_type_id-Returns n buf (i + 1) (omega arith))

-- A primitive with the kind and the size that the built-in table has for its name.
abbrev pub IsKnown : Primitive → Type 0
IsKnown p =
    (d : PrimitiveDesc) × (lookup_primitive_desc p.name ≡ some d)
    × (p.kind ≡ d.kind)
    × (p.byte_size ≡ d.byte_size)

-- The primitives lie in the order of the file, each with its name in front of the next.
abbrev pub AreKnown : ℕ → List Primitive → ℕ → Type 0
AreKnown lo [] hi = lo ≤ hi
AreKnown lo (p ∷ ps) hi =
    (lo ≤ p.file_offset) × IsKnown p × AreKnown (p.file_offset + 2 + length p.name) ps hi

AreKnown-push :
    (lo : ℕ) (ps : List Primitive) (mid : ℕ) (p : Primitive) (hi : ℕ)
    → AreKnown lo ps mid
    → mid ≤ p.file_offset
    → IsKnown p
    → p.file_offset + 2 + length p.name ≤ hi
    → AreKnown lo (ps ++ p ∷ []) hi
AreKnown-push lo [] mid p hi h later known fits = (omega arith, known, fits)
AreKnown-push lo (q ∷ qs) mid p hi (a, b, rest) later known fits =
    (a, b, AreKnown-push (q.file_offset + 2 + length q.name) qs mid p hi rest later known fits)

AreKnown-up :
    (lo : ℕ) (ps : List Primitive) (mid hi : ℕ) → AreKnown lo ps mid → mid ≤ hi → AreKnown lo ps hi
AreKnown-up lo [] mid hi h up = omega arith
AreKnown-up lo (q ∷ qs) mid hi (a, b, rest) up =
    (a, b, AreKnown-up (q.file_offset + 2 + length q.name) qs mid hi rest up)

module _ (lo : ℕ) (prims : List Primitive) (buf : Bytes) (pos : ℕ)
    (known : AreKnown lo prims pos) where
  push_primitive-AreKnown :
      (name : Bytes) (type_id : ℕ)
      → let out = push_primitive prims name type_id pos in
        AreKnown lo out (pos + 2 + length name) × (length out ≤ length prims + 1)
  unfolding push_primitive
  push_primitive-AreKnown name type_id = go (lookup_primitive_desc name) refl
    where
      go :
          (o : Option PrimitiveDesc)
          → lookup_primitive_desc name ≡ o
          → let out = elim o as (λ x. List Primitive) [
            | some desc ↦
                prims
                ++ (record {
                  name = name;
                  kind = desc.kind;
                  byte_size = desc.byte_size;
                  raw_type_id = type_id;
                  file_offset = pos;
                })
                  ∷ []
            | none ↦ prims
          ] in
            AreKnown lo out (pos + 2 + length name) × (length out ≤ length prims + 1)
      go none e =
          (AreKnown-up lo prims pos (pos + 2 + length name) known (omega arith), omega arith)
      go (some d) e =
          let p : Primitive = record {
            name = name;
            kind = d.kind;
            byte_size = d.byte_size;
            raw_type_id = type_id;
            file_offset = pos;
          } in
          (
            AreKnown-push lo prims pos p (pos + 2 + length name) known (omega arith)
                (d, e, refl, refl) (omega arith),
            omega (arith, length-append prims (p ∷ [])),
          )

  -- A round goes on at a later index inside the buffer, or ends the scan.
  abbrev IsRound : List Primitive × Option ℕ → Type 0
  IsRound (out, none) = AreKnown lo out (length buf) × (length out ≤ length prims + 1)
  IsRound (out, some next) =
      (pos < next) × (next ≤ length buf) × AreKnown lo out next × (length out ≤ length prims + 1)

  read_primitive-IsRound :
      (name_len : ℕ)
      → pos + 2 + name_len ≤ length buf
      → Returns IsRound (read_primitive prims buf pos name_len)
  unfolding read_primitive
  read_primitive-IsRound name_len fits =
      let name_end = pos + 2 + name_len in
      let n = min (length buf) (pos + 256) - 3 - name_end in
      Returns-bind (IfFound (λ next. (name_end < next) × (next ≤ name_end + n))) IsRound
        (find_next_record n buf name_end) _ (find_next_record-Returns n buf name_end (omega arith))
        after
    where
      pushed :
          (type_id hi : ℕ)
          → pos + 2 + name_len ≤ hi
          → let out = push_primitive prims (string_at buf (pos + 2) name_len) type_id pos in
            AreKnown lo out hi × (length out ≤ length prims + 1)
      pushed type_id hi later =
          let name = string_at buf (pos + 2) name_len in
          let short : length name ≤ name_len =
            omega (arith, length-take name_len (drop (pos + 2) buf)) in
          let (a, b) = push_primitive-AreKnown name type_id in
          (
            AreKnown-up lo (push_primitive prims name type_id pos) (pos + 2 + length name) hi a
                (omega arith),
            b,
          )

      after :
          (next_rec : Option ℕ)
          → IfFound
              (λ next.
                (pos + 2 + name_len < next)
                × (next
                    ≤ pos
                      + 2
                      + name_len
                      + (min (length buf) (pos + 256) - 3 - (pos + 2 + name_len))))
              next_rec
          → Returns IsRound (do
            let rec_end : ℕ = elim next_rec [
              | some next ↦ next
              | none ↦ min (length buf) (pos + 256)
            ]
            type_id ← find_type_id (rec_end + 1 - (pos + 2 + name_len + 4)) buf (pos + 2 + name_len)
            some (push_primitive prims (string_at buf (pos + 2) name_len) type_id pos, next_rec))
      after none h =
          let n = min (length buf) (pos + 256) + 1 - (pos + 2 + name_len + 4) in
          Returns-bind (λ t. Unit {0}) IsRound (find_type_id n buf (pos + 2 + name_len)) _
            (find_type_id-Returns n buf (pos + 2 + name_len) (omega arith))
            (λ t u. pushed t (length buf) fits)
      after (some next) (from, to) =
          let n = next + 1 - (pos + 2 + name_len + 4) in
          Returns-bind (λ t. Unit {0}) IsRound (find_type_id n buf (pos + 2 + name_len)) _
            (find_type_id-Returns n buf (pos + 2 + name_len) (omega arith))
            (λ t u. let (a, b) = pushed t next (omega arith) in (omega arith, omega arith, a, b))

  primitive_round-IsRound : pos < length buf → Returns IsRound (primitive_round prims buf pos)
  unfolding primitive_round
  primitive_round-IsRound inside =
      let stays : AreKnown lo prims (length buf) =
        AreKnown-up lo prims pos (length buf) known (omega arith) in
      ground (arith, read_primitive-IsRound (at buf (pos + 1)))

primitives_from-AreKnown :
    (fuel lo : ℕ) (prims : List Primitive) (buf : Bytes) (pos : ℕ)
    → AreKnown lo prims pos
    → length prims ≤ 64
    → pos ≤ length buf
    → length buf < fuel + pos
    → Returns
        (λ ps. AreKnown lo ps (length buf) × (length ps ≤ 64))
        (primitives_from fuel prims buf pos)
unfolding primitives_from
primitives_from-AreKnown zero lo prims buf pos known few inside enough = absurd (omega arith)
primitives_from-AreKnown (suc fuel) lo prims buf pos known few inside enough =
    elim (Bool-cases (leb 64 (length prims) || leb (length buf) pos)) [
      | inl full ↦ rw full (AreKnown-up lo prims pos (length buf) known inside, few)
      | inr open_ ↦ rw open_ (
          let more : pos < length buf = ground arith in
          let fewer : length prims < 64 = ground arith in
          Returns-bind (IsRound lo prims buf pos known)
            (λ ps. AreKnown lo ps (length buf) × (length ps ≤ 64)) (primitive_round prims buf pos) _
            (primitive_round-IsRound lo prims buf pos known more)
            (after fewer λ next out' later end known' few'.
              primitives_from-AreKnown fuel lo out' buf next known' few' end (omega arith)))
    ]
  where
    after :
        length prims < 64
        → ((next : ℕ) (out' : List Primitive)
            → pos < next
            → next ≤ length buf
            → AreKnown lo out' next
            → length out' ≤ 64
            → Returns
                (λ ps. AreKnown lo ps (length buf) × (length ps ≤ 64))
                (primitives_from fuel out' buf next))
        → (r : List Primitive × Option ℕ) → IsRound lo prims buf pos known r
        → Returns
            (λ ps. AreKnown lo ps (length buf) × (length ps ≤ 64))
            (elim r.1 [ none ↦ some r.0 | some next ↦ primitives_from fuel r.0 buf next ])
    after fewer again (out, none) (a, b) = (a, omega arith)
    after fewer again (out, some next) (from, to, a, b) = again next out from to a (omega arith)

-- The scan of the primitive table ends on every buffer and reads inside it only. It gives at most
-- 64 primitives, in the order of the file from the offset 0x400 on, their names one behind the
-- other inside the buffer, and each has the kind and the size that the built-in table has for it.
pub scan_primitive_table-AreKnown :
    (buf : Bytes)
    → Returns
        (λ ps. AreKnown (min 0x400 (length buf)) ps (length buf) × (length ps ≤ 64))
        (scan_primitive_table buf)
unfolding scan_primitive_table
scan_primitive_table-AreKnown buf =
    started (find_bytes buf (min 0x400 (length buf)) (min 0x10000 (length buf)) boolean_sig) (
      find_bytes-IsFirst buf (min 0x400 (length buf)) (min 0x10000 (length buf)) boolean_sig
        (ground arith) (omega arith))
  where
    started :
        (o : Option ℕ)
        → IsFirst buf (min 0x400 (length buf)) (min 0x10000 (length buf)) boolean_sig o
        → Returns
            (λ ps. AreKnown (min 0x400 (length buf)) ps (length buf) × (length ps ≤ 64))
            (elim o [
              | none ↦ some []
              | some boolean_at ↦ primitives_from (length buf + 1) [] buf boolean_at
            ])
    started none h = (omega arith, omega arith)
    started (some i) (from, (_, to), _) =
        primitives_from-AreKnown (length buf + 1) (min 0x400 (length buf)) [] buf i from
          (omega arith) (omega arith) (omega arith)
