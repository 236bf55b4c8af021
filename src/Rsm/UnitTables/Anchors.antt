-- ===== src/Rsm/UnitTables/Anchors.antt =====
-- The search for unit anchors on every buffer.
use vscode_delphi_extension.Base.{
  ℕ, zero, suc, ◌+◌, ◌-◌, ◌≤◌, ◌<◌, ◌≡◌, refl, min, Option, none, some, List, [], ◌∷◌, ◌++◌, leb,
  Bytes, length, length-take, take, drop, at, Returns, Returns-bind, arith, Bool-cases, inl, inr,
}
use vscode_delphi_extension.Rsm.SubRecord.Sound.{IfFound}
use vscode_delphi_extension.Rsm.UnitTables.{
  is_print_ascii, is_source_at, find_source, UnitAnchor, anchor_at, anchors_from, find_anchors,
}

pub is_print_ascii-Returns :
    (buf : Bytes) (p n : ℕ) → p + n ≤ length buf → Returns (λ b. Unit {0}) (is_print_ascii buf p n)
unfolding is_print_ascii
is_print_ascii-Returns buf p zero h = tt
is_print_ascii-Returns buf p (suc n) h =
    ground (arith, is_print_ascii-Returns buf (p + 1) n (omega arith))

is_source_at-Returns :
    (buf : Bytes) (s : ℕ) → s + 2 < length buf → Returns (λ b. Unit {0}) (is_source_at buf s)
unfolding is_source_at
is_source_at-Returns buf s h = ground (arith, is_print_ascii-Returns buf (s + 3) (at buf (s + 2)))

find_source-Returns :
    (n : ℕ) (buf : Bytes) (s : ℕ)
    → n ≤ length buf - (s + 2)
    → Returns (λ b. Unit {0}) (find_source n buf s)
unfolding find_source
find_source-Returns zero buf s h = tt
find_source-Returns (suc n) buf s h = ground (
  arith,
  is_source_at-Returns buf s (omega arith),
  find_source-Returns n buf (s + 1) (omega arith),
)

-- An anchor found at `a`, with the index behind its name.
pub record IsAnchor (buf : Bytes) (a : ℕ) (r : UnitAnchor × ℕ) : Type 0 where
  pub begins : r.0.file_offset ≡ a
  pub holds : a + 2 + length r.0.name ≤ r.1
  pub grows : a < r.1
  pub inside : r.1 ≤ length buf

anchor_at-IsAnchor :
    (buf : Bytes) (a : ℕ)
    → a + 60 < length buf
    → Returns (IfFound (IsAnchor buf a)) (anchor_at buf a)
unfolding anchor_at
anchor_at-IsAnchor buf a h =
    let nl = at buf (a + 1) in
    let scan_lo = a + 2 + nl in
    ground (
      arith,
      is_print_ascii-Returns buf (a + 2) nl,
      find_source-Returns (min (length buf) (scan_lo + 200) - 8 - scan_lo) buf scan_lo
          (omega arith),
      λ (le : nl ≤ 40). found nl le,
    )
  where
    found :
        (nl : ℕ)
        → nl ≤ 40
        → IsAnchor buf a (record { file_offset = a; name = take nl (drop (a + 2) buf) }, a + 2 + nl)
    found nl le = record {
      begins = refl;
      holds = omega (arith, length-take nl (drop (a + 2) buf));
      grows = omega arith;
      inside = omega arith;
    }

-- The anchors lie one behind the other between two indices.
abbrev pub AreAnchors : ℕ → List UnitAnchor → ℕ → Type 0
AreAnchors lo [] hi = lo ≤ hi
AreAnchors lo (u ∷ us) hi =
    (lo ≤ u.file_offset) × AreAnchors (u.file_offset + 2 + length u.name) us hi

AreAnchors-push :
    (lo : ℕ) (us : List UnitAnchor) (mid : ℕ) (u : UnitAnchor) (hi : ℕ)
    → AreAnchors lo us mid
    → mid ≤ u.file_offset
    → u.file_offset + 2 + length u.name ≤ hi
    → AreAnchors lo (us ++ u ∷ []) hi
AreAnchors-push lo [] mid u hi h later fits = (omega arith, fits)
AreAnchors-push lo (w ∷ ws) mid u hi (a, rest) later fits =
    (a, AreAnchors-push (w.file_offset + 2 + length w.name) ws mid u hi rest later fits)

AreAnchors-up :
    (lo : ℕ) (us : List UnitAnchor) (mid hi : ℕ)
    → AreAnchors lo us mid
    → mid ≤ hi
    → AreAnchors lo us hi
AreAnchors-up lo [] mid hi h up = omega arith
AreAnchors-up lo (w ∷ ws) mid hi (a, rest) up =
    (a, AreAnchors-up (w.file_offset + 2 + length w.name) ws mid hi rest up)

anchors_from-AreAnchors :
    (fuel lo limit : ℕ) (buf : Bytes) (a : ℕ) (out : List UnitAnchor)
    → AreAnchors lo out a
    → a ≤ limit
    → length buf ≤ limit
    → length buf < fuel + a
    → 0 < fuel
    → Returns (λ us. AreAnchors lo us limit) (anchors_from fuel buf a out)
unfolding anchors_from
anchors_from-AreAnchors zero lo limit buf a out laid inside wide enough some_fuel =
    absurd (omega arith)
anchors_from-AreAnchors (suc fuel) lo limit buf a out laid inside wide enough some_fuel =
    elim (Bool-cases (leb (length buf) (a + 60))) [
      | inl near_end ↦ rw near_end (AreAnchors-up lo out a limit laid inside)
      | inr far ↦ rw far (
          let more : a + 60 < length buf = ground arith in
          Returns-bind (IfFound (IsAnchor buf a)) (λ us. AreAnchors lo us limit) (anchor_at buf a) _
            (anchor_at-IsAnchor buf a more)
            (after more λ next out' later end laid'.
              anchors_from-AreAnchors fuel lo limit buf next out' laid' (omega arith) wide
                (omega arith) (omega arith)))
    ]
  where
    after :
        a + 60 < length buf
        → ((next : ℕ) (out' : List UnitAnchor)
            → a < next
            → next ≤ length buf
            → AreAnchors lo out' next
            → Returns (λ us. AreAnchors lo us limit) (anchors_from fuel buf next out'))
        → (r : Option (UnitAnchor × ℕ)) → IfFound (IsAnchor buf a) r
        → Returns
            (λ us. AreAnchors lo us limit)
            (elim r [
              | none ↦ anchors_from fuel buf (a + 1) out
              | some (u, next) ↦ anchors_from fuel buf next (out ++ u ∷ [])
            ])
    after more again none h =
        again (a + 1) out (omega arith) (omega arith)
          (AreAnchors-up lo out a (a + 1) laid (omega arith))
    after more again (some (u, next)) h =
        let begins = h.begins in
        let holds = h.holds in
        again next (out ++ u ∷ []) h.grows h.inside
          (AreAnchors-push lo out a u next laid (omega arith) (omega arith))

-- The search for the units ends on every buffer and reads inside it only. The anchors lie one
-- behind the other, each with its name, from the offset 0x420 up to the end of the buffer; in a
-- buffer that is shorter there are none.
pub find_anchors-AreAnchors :
    (buf : Bytes)
    → Returns (λ us. AreAnchors 0x420 us (0x420 + (length buf - 0x420))) (find_anchors buf)
unfolding find_anchors
find_anchors-AreAnchors buf =
    anchors_from-AreAnchors (length buf + 1) 0x420 (0x420 + (length buf - 0x420)) buf 0x420 []
      (omega arith) (omega arith) (omega arith) (omega arith) (omega arith)
