-- ===== src/Pe/ThunkScanner/RoundTrip.antt =====
-- The thunks that the compiler emits, packed one behind the other, and what the scan makes of
-- them.
use vscode_delphi_extension.Base.{
  ℕ, zero, suc, ◌+◌, ◌*◌, ◌%◌, ◌^◌, ◌≤◌, ◌<◌, ◌≡◌, ◌∙◌, ap, some, List, [], ◌∷◌, ◌++◌, append_assoc,
  append-nil, pos, negsuc, ◌≤ℤ◌, ◌+ℤ◌, pos_part, neg_part, Bytes, IsByte, length, to_i8, to_i32,
  or32, or32_sum, From, From-at, From-add, read_u32_lem, arith, drop,
}
use vscode_delphi_extension.Pe.ThunkScanner.{
  AdjusterThunk, sign_extend, Section, thunk_at, match_at, scan_loop, scan_section,
}

-- The bytes that vary: the adjustment, and the relative target.
pub record Thunk : Type 0 where
  pub adj : ℕ
  pub r0 : ℕ
  pub r1 : ℕ
  pub r2 : ℕ
  pub r3 : ℕ

abbrev pub rel : Thunk → ℕ
rel t = or32 t.r0 t.r1 t.r2 t.r3

-- `add rcx, adj; jmp rel`, packed in front of `rest`.
abbrev pub encode : Thunk → Bytes → Bytes
encode t rest = 0x48 ∷ 0x83 ∷ 0xC1 ∷ t.adj ∷ 0xE9 ∷ t.r0 ∷ t.r1 ∷ t.r2 ∷ t.r3 ∷ rest

abbrev pub encode_all : List Thunk → Bytes → Bytes
encode_all [] rest = rest
encode_all (t ∷ ts) rest = encode t (encode_all ts rest)

-- The thunk at offset `i` of a section that is loaded at `base`, in unbounded integers.
abbrev pub resolved : ℕ → ℕ → ℕ → Thunk → AdjusterThunk
resolved base seg i t = record {
  va = base + i;
  target_va = pos_part (pos (base + i + 9) +ℤ to_i32 (rel t));
  adjustment = to_i8 t.adj;
  segment = seg;
  section_off = i;
}

abbrev pub resolved_all : ℕ → ℕ → ℕ → List Thunk → List AdjusterThunk
resolved_all base seg i [] = []
resolved_all base seg i (t ∷ ts) = resolved base seg i t ∷ resolved_all base seg (i + 9) ts

-- Bytes, an adjustment that Delphi uses, and a target in the address space.
abbrev pub IsThunkAt : ℕ → ℕ → Thunk → Type 0
IsThunkAt base i t =
    (IsByte t.adj × IsByte t.r0 × IsByte t.r1 × IsByte t.r2 × IsByte t.r3)
    × ((negsuc 0x6F ≤ℤ to_i8 t.adj) × (to_i8 t.adj ≤ℤ pos 0))
    × (neg_part (pos (base + i + 9) +ℤ to_i32 (rel t)) ≡ 0)

abbrev pub AreThunks : ℕ → ℕ → List Thunk → Type 0
AreThunks base i [] = Unit
AreThunks base i (t ∷ ts) = IsThunkAt base i t × AreThunks base (i + 9) ts

thunk_at-resolved :
    (image_base i : ℕ) (s : Section) (t : Thunk)
    → image_base + s.va + i + 9 < 2 ^ 63
    → IsThunkAt (image_base + s.va) i t
    → thunk_at image_base s i (to_i8 t.adj) (rel t) ≡ resolved (image_base + s.va) s.segment i t
unfolding thunk_at sign_extend ◌+ℤ◌ to_i32
thunk_at-resolved image_base i s t h ((_, b0, b1, b2, b3), _, p) =
    ground (arith, or32_sum t.r0 t.r1 t.r2 t.r3 b0 b1 b2)

module _ (pe : Bytes) (image_base : ℕ) (s : Section) where
  match_at-encode :
      (i : ℕ) (t : Thunk) (rest : Bytes)
      → image_base + s.va + i + 9 < 2 ^ 63
      → IsThunkAt (image_base + s.va) i t
      → From pe (s.file_off + i) (encode t rest)
      → match_at pe image_base s i ≡ some (some (resolved (image_base + s.va) s.segment i t))
  unfolding match_at
  match_at-encode i t rest h is f = ground (
    arith,
    From-at pe (s.file_off + i) _ 0 f (omega arith),
    From-at pe (s.file_off + i) _ 1 f (omega arith),
    From-at pe (s.file_off + i) _ 2 f (omega arith),
    From-at pe (s.file_off + i) _ 3 f (omega arith),
    From-at pe (s.file_off + i) _ 4 f (omega arith),
    From-at pe (s.file_off + i) _ 5 f (omega arith),
    From-at pe (s.file_off + i) _ 6 f (omega arith),
    From-at pe (s.file_off + i) _ 7 f (omega arith),
    From-at pe (s.file_off + i) _ 8 f (omega arith),
    read_u32_lem pe (s.file_off + i + 5),
    thunk_at-resolved image_base i s t h is,
  )

  scan_loop-encode_all :
      (ts : List Thunk) (fuel i : ℕ) (before : List AdjusterThunk) (rest : Bytes)
      → AreThunks (image_base + s.va) i ts
      → From pe (s.file_off + i) (encode_all ts rest)
      → i + 9 * length ts ≡ s.size
      → length ts < fuel
      → s.size + 9 < 2 ^ 32
      → image_base + s.va + s.size < 2 ^ 63
      → scan_loop fuel pe image_base s i before
        ≡ some (before ++ resolved_all (image_base + s.va) s.segment i ts)
  unfolding scan_loop
  scan_loop-encode_all ts zero i before rest a f z enough small low = absurd (omega arith)
  scan_loop-encode_all [] (suc fuel) i before rest a f z enough small low =
      ground (arith, append-nil before)
  scan_loop-encode_all (t ∷ ts) (suc fuel) i before rest (h, a) f z enough small low =
      let j : (i + 9) % 2 ^ 32 ≡ i + 9 = omega arith in
      ground (
        arith,
        match_at-encode i t (encode_all ts rest) (omega arith) h f,
        j,
        ap
            (λ (k : ℕ).
              scan_loop fuel pe image_base s k
                (before ++ (resolved (image_base + s.va) s.segment i t ∷ [])))
            j,
        scan_loop-encode_all ts fuel (i + 9)
            (before ++ (resolved (image_base + s.va) s.segment i t ∷ [])) rest a
            (ap (λ (k : ℕ). drop k pe) (omega arith) ∙ From-add pe (s.file_off + i) _ 9 f)
            (omega arith) (omega arith) small low,
        append_assoc before (resolved (image_base + s.va) s.segment i t ∷ [])
            (resolved_all (image_base + s.va) s.segment (i + 9) ts),
      )

-- A section that consists of packed thunks is decoded entirely: one entry for each thunk, in
-- order, with the target of the jump computed in unbounded integers.
pub scan_section-encode_all :
    (pe : Bytes) (image_base : ℕ) (s : Section) (ts : List Thunk) (before : List AdjusterThunk)
    (rest : Bytes)
    → AreThunks (image_base + s.va) 0 ts
    → From pe s.file_off (encode_all ts rest)
    → s.size ≡ 9 * length ts
    → s.file_off + s.size ≤ length pe
    → s.size + 9 < 2 ^ 32
    → image_base + s.va + s.size < 2 ^ 63
    → scan_section pe image_base s before
      ≡ some (before ++ resolved_all (image_base + s.va) s.segment 0 ts)
unfolding scan_section
scan_section-encode_all pe image_base s [] before rest a f z inside small low =
    ground (arith, append-nil before)
scan_section-encode_all pe image_base s (t ∷ ts) before rest a f z inside small low = ground (
  arith,
  scan_loop-encode_all pe image_base s (t ∷ ts) (s.size + 1) 0 before rest a
      (ap (λ (k : ℕ). drop k pe) (omega arith) ∙ f) (omega arith) (omega arith) small low,
)
