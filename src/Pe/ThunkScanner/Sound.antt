-- ===== src/Pe/ThunkScanner/Sound.antt =====
-- What the scan returns on every image.
use vscode_delphi_extension.Base.{
  ℕ, zero, suc, ◌+◌, ◌%◌, ◌^◌, ◌≤◌, ◌<◌, ◌≡◌, ◌≢◌, refl, sym, ◌∙◌, inl, inr, Option, none, some,
  List, [], ◌∷◌, ◌++◌, append_assoc, append-nil, ℤ, pos, negsuc, ◌≤ℤ◌, Bytes, length, at, word_at,
  read_u32_lem, to_i8, Returns, Returns-bind, Returns-map, Option-cases, Bool-cases, leb, leb→le,
  arith, ltb,
}
use vscode_delphi_extension.Pe.ThunkScanner.{
  AdjusterThunk, thunk_size, sign_extend, Section, thunk_at, match_at, scan_loop, scan_section,
  scan_sections, scan_adjuster_thunks,
}

-- The nine bytes `48 83 c1 NN e9 NN NN NN NN` lie at the thunk's place, and its fields say so.
pub record IsThunk (pe : Bytes) (image_base : ℕ) (s : Section) (t : AdjusterThunk) : Type 0 where
  pub add_rcx :
      (at pe (s.file_off + t.section_off) ≡ 0x48)
      × (at pe (s.file_off + t.section_off + 1) ≡ 0x83)
      × (at pe (s.file_off + t.section_off + 2) ≡ 0xC1)
  pub jmp : at pe (s.file_off + t.section_off + 4) ≡ 0xE9
  pub adjusts : t.adjustment ≡ to_i8 (at pe (s.file_off + t.section_off + 3))
  pub negative : (negsuc 0x6F ≤ℤ t.adjustment) × (t.adjustment ≤ℤ pos 0)
  pub segment_is : t.segment ≡ s.segment
  pub va_is : t.va ≡ (image_base + s.va + t.section_off) % 2 ^ 64
  pub target_is :
      t.target_va ≡ (t.va + 9 + sign_extend (word_at pe (s.file_off + t.section_off + 5))) % 2 ^ 64

-- The thunks of a list lie one behind the other between two offsets, with no overlap.
abbrev pub Chain : Bytes → ℕ → Section → ℕ → List AdjusterThunk → ℕ → Type 0
Chain pe image_base s lo [] hi = lo ≤ hi
Chain pe image_base s lo (t ∷ ts) hi =
    (lo ≤ t.section_off)
    × IsThunk pe image_base s t
    × Chain pe image_base s (t.section_off + 9) ts hi

abbrev IsHit : Bytes → ℕ → Section → ℕ → Option AdjusterThunk → Type 0
IsHit pe image_base s i none = Unit
IsHit pe image_base s i (some t) = (t.section_off ≡ i) × IsThunk pe image_base s t

module _ (pe : Bytes) (image_base : ℕ) (s : Section) where
  thunk_at-IsThunk :
      (i : ℕ)
      → (at pe (s.file_off + i) ≡ 0x48)
      → (at pe (s.file_off + i + 1) ≡ 0x83)
      → (at pe (s.file_off + i + 2) ≡ 0xC1)
      → (at pe (s.file_off + i + 4) ≡ 0xE9)
      → negsuc 0x6F ≤ℤ to_i8 (at pe (s.file_off + i + 3))
      → to_i8 (at pe (s.file_off + i + 3)) ≤ℤ pos 0
      → IsThunk pe image_base s (
          thunk_at image_base s i
            (to_i8 (at pe (s.file_off + i + 3)))
            (word_at pe (s.file_off + i + 5)))
  unfolding thunk_at
  thunk_at-IsThunk i h0 h1 h2 h4 lo hi = record {
    add_rcx = (h0, h1, h2);
    jmp = h4;
    adjusts = refl;
    negative = (lo, hi);
    segment_is = refl;
    va_is = refl;
    target_is = omega arith;
  }

  pub thunk_at-off : (i : ℕ) (adj : ℤ) (rel : ℕ) → (thunk_at image_base s i adj rel).section_off ≡ i
  unfolding thunk_at
  thunk_at-off i adj rel = refl

  match_at-ne-none : (i : ℕ) → s.file_off + i + 9 ≤ length pe → match_at pe image_base s i ≢ none
  unfolding match_at
  match_at-ne-none i h = ground (arith, read_u32_lem pe (s.file_off + i + 5))

  -- A hit passed every test.
  match_at-hit :
      (i : ℕ) {t : AdjusterThunk}
      → s.file_off + i + 9 ≤ length pe
      → match_at pe image_base s i ≡ some (some t)
      → (t
          ≡ thunk_at image_base s i
              (to_i8 (at pe (s.file_off + i + 3)))
              (word_at pe (s.file_off + i + 5)))
        × (at pe (s.file_off + i) ≡ 0x48)
        × (at pe (s.file_off + i + 1) ≡ 0x83)
        × (at pe (s.file_off + i + 2) ≡ 0xC1)
        × (at pe (s.file_off + i + 4) ≡ 0xE9)
        × (negsuc 0x6F ≤ℤ to_i8 (at pe (s.file_off + i + 3)))
        × (to_i8 (at pe (s.file_off + i + 3)) ≤ℤ pos 0)
  unfolding match_at
  match_at-hit i h e = ground (arith, read_u32_lem pe (s.file_off + i + 5))

  match_at-IsHit :
      (i : ℕ)
      → s.file_off + i + 9 ≤ length pe
      → Returns (IsHit pe image_base s i) (match_at pe image_base s i)
  match_at-IsHit i h = elim (Option-cases (match_at pe image_base s i)) [
    | inl fault ↦ absurd (match_at-ne-none i h fault)
    | inr (none, e) ↦ rw e tt
    | inr (some t, e) ↦
        let (is, h0, h1, h2, h4, lo, hi) = match_at-hit i h e in
        rw (e, is) (thunk_at-off i _ _, thunk_at-IsThunk i h0 h1 h2 h4 lo hi)
  ]

  Chain-mono :
      (lo : ℕ) (ts : List AdjusterThunk) (hi hi' : ℕ)
      → Chain pe image_base s lo ts hi
      → hi ≤ hi'
      → Chain pe image_base s lo ts hi'
  Chain-mono lo [] hi hi' c le = omega arith
  Chain-mono lo (t ∷ ts) hi hi' (l, i, c) le = (l, i, Chain-mono (t.section_off + 9) ts hi hi' c le)

  Chain-concat :
      (lo : ℕ) (ts : List AdjusterThunk) (t : AdjusterThunk) (hi : ℕ)
      → Chain pe image_base s lo ts hi
      → hi ≤ t.section_off
      → IsThunk pe image_base s t
      → Chain pe image_base s lo (ts ++ (t ∷ [])) (t.section_off + 9)
  Chain-concat lo [] t hi c le is = (omega arith, is, omega arith)
  Chain-concat lo (u ∷ ts) t hi (l, i, c) le is =
      (l, i, Chain-concat (u.section_off + 9) ts t hi c le is)

  -- What one section adds to the thunks found before it.
  abbrev pub Adds : List AdjusterThunk → List AdjusterThunk → Type 0
  Adds before r =
      (new : List AdjusterThunk) × (r ≡ before ++ new) × Chain pe image_base s 0 new s.size

  scan_loop-Adds :
      (fuel i : ℕ) (before new : List AdjusterThunk)
      → s.file_off + s.size ≤ length pe
      → length pe + 9 < 2 ^ 32
      → i ≤ s.size
      → s.size < i + fuel
      → Chain pe image_base s 0 new i
      → Returns (Adds before) (scan_loop fuel pe image_base s i (before ++ new))
  unfolding scan_loop
  scan_loop-Adds zero i before new hp small le enough c = absurd (omega arith)
  scan_loop-Adds (suc fuel) i before new hp small le enough c =
      elim (Bool-cases (leb ((i + thunk_size) % 2 ^ 32) s.size)) [
        | inr over ↦ rw over (new, refl, Chain-mono 0 new i s.size c le)
        | inl more ↦ rw more (
            let room = leb→le _ _ more in
            elim (Option-cases (match_at pe image_base s i)) [
              | inl fault ↦ absurd (match_at-ne-none i (omega arith) fault)
              | inr (none, e) ↦ rw e (
                  scan_loop-Adds fuel ((i + 1) % 2 ^ 32) before new hp small (omega arith)
                    (omega arith) (Chain-mono 0 new i _ c (omega arith)))
              | inr (some t, e) ↦
                  let hit : IsHit pe image_base s i (some t) =
                    rw e at (match_at-IsHit i (omega arith)) in
                  rw (e, append_assoc)
                    (scan_loop-Adds fuel ((i + thunk_size) % 2 ^ 32) before (new ++ (t ∷ [])) hp
                      small (omega arith) (omega arith)
                      (Chain-mono 0 (new ++ (t ∷ [])) (t.section_off + 9) _
                        (Chain-concat 0 new t i c (omega arith) hit.1) (omega arith)))
            ])
      ]

  -- A section's round adds a chain of thunks to those found before it, or nothing.
  scan_section-Adds :
      (before : List AdjusterThunk)
      → length pe + 9 < 2 ^ 32
      → Returns (Adds before) (scan_section pe image_base s before)
  unfolding scan_section
  scan_section-Adds before small = elim (Bool-cases (ltb s.size thunk_size)) [
    | inl tiny ↦ rw tiny ([], sym (append-nil before), omega arith)
    | inr fits ↦ rw fits (elim (Bool-cases (ltb (length pe) (s.file_off + s.size))) [
      | inl outside ↦ rw outside ([], sym (append-nil before), omega arith)
      | inr inside ↦ rw inside (
          rw append-nil at (
            scan_loop-Adds (s.size + 1) 0 before [] (ground arith) small (omega arith) (omega arith)
              (omega arith)))
    ])
  ]

abbrev section_of : ℕ × ℕ → ℕ × ℕ → Section
section_of c o = record { va = c.0; size = c.1; file_off = o.0; segment = o.1 }

-- The result is made of one chain for each section, in the order of the sections.
abbrev pub Chains : Bytes → ℕ → List (ℕ × ℕ) → List (ℕ × ℕ) → List AdjusterThunk → Type 0
Chains pe image_base [] offs r = r ≡ []
Chains pe image_base (c ∷ cs) [] r = ⊥
Chains pe image_base (c ∷ cs) (o ∷ offs) r =
    (new : List AdjusterThunk) × (rest : List AdjusterThunk) × (r ≡ new ++ rest)
    × Chain pe image_base (section_of c o) 0 new c.1
    × Chains pe image_base cs offs rest

scan_sections-Chains :
    (pe : Bytes) (cs offs : List (ℕ × ℕ)) (image_base : ℕ) (before : List AdjusterThunk)
    → length cs ≤ length offs
    → length pe + 9 < 2 ^ 32
    → Returns
        (λ r. (new : List AdjusterThunk) × (r ≡ before ++ new) × Chains pe image_base cs offs new)
        (scan_sections pe cs offs image_base before)
unfolding scan_sections
scan_sections-Chains pe [] offs image_base before le small = ([], sym (append-nil before), refl)
scan_sections-Chains pe (c ∷ cs) [] image_base before le small = absurd (omega arith)
scan_sections-Chains pe (c ∷ cs) (o ∷ offs) image_base before le small =
    Returns-bind (Adds pe image_base (section_of c o) before) _
      (scan_section pe image_base (section_of c o) before) _
      (scan_section-Adds pe image_base (section_of c o) before small)
      λ out (new, e, chain). rw e (
        Returns-map _ _ (scan_sections pe cs offs image_base (before ++ new))
          (λ r (rest, e', chains).
            (new ++ rest, e' ∙ append_assoc before new rest, (new, rest, refl, chain, chains)))
          (scan_sections-Chains pe cs offs image_base (before ++ new) (omega arith) small))

-- With an offset for each section and an image below 4 GB, the scan ends without a read outside
-- the image. Its result lists, section by section and without overlaps, places of the section
-- that hold the nine bytes of a thunk with an adjustment from -0x70 to 0, and the fields of each
-- entry are the addresses that those bytes encode.
pub scan_adjuster_thunks-Chains :
    (pe : Bytes) (code_sections section_file_offs : List (ℕ × ℕ)) (image_base : ℕ)
    → length code_sections ≤ length section_file_offs
    → length pe + 9 < 2 ^ 32
    → Returns
        (Chains pe image_base code_sections section_file_offs)
        (scan_adjuster_thunks pe code_sections section_file_offs image_base)
unfolding scan_adjuster_thunks
scan_adjuster_thunks-Chains pe cs offs image_base le small =
    Returns-map _ _ (scan_sections pe cs offs image_base []) (λ r (new, e, chains). rw e chains)
      (scan_sections-Chains pe cs offs image_base [] le small)
