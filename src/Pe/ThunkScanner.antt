-- ===== src/Pe/ThunkScanner.antt =====
-- src/pe/thunk_scanner.h: the interface adjuster thunks in the code sections of a PE image. The
-- image is a list of bytes. `none` is a read outside it (or outside the table of file offsets),
-- or a loop that ran out of fuel.
pub mod Sound
pub mod RoundTrip
use vscode_delphi_extension.Base.{
  ℕ, zero, suc, ◌+◌, ◌-◌, ◌%◌, ◌^◌, Bool, not, ◌||◌, Option, none, some, List, [], ◌∷◌, ◌++◌, ltb,
  leb, ◌==◌, if◌then◌else◌, ◌>>=◌, ℤ, pos, negsuc, ltb_ℤ, Bytes, length, at, read, read_u32, to_i8,
}

pub record AdjusterThunk : Type 0 where
  pub va : ℕ
  pub target_va : ℕ
  pub adjustment : ℤ
  pub segment : ℕ
  pub section_off : ℕ

abbrev pub thunk_size : ℕ
thunk_size = 9

-- A uint32_t as int32_t, widened to int64_t and taken as uint64_t again.
unfoldable pub sign_extend : ℕ → ℕ
sign_extend rel = if ltb rel (2 ^ 31) then rel else rel + (2 ^ 64 - 2 ^ 32)

-- What the scan of one section is given: where it lies in the image and in memory.
pub record Section : Type 0 where
  pub va : ℕ
  pub size : ℕ
  pub file_off : ℕ
  pub segment : ℕ

unfoldable pub thunk_at : ℕ → Section → ℕ → ℤ → ℕ → AdjusterThunk
thunk_at image_base s i adj rel =
    let thunk_va = (image_base + s.va + i) % 2 ^ 64 in
    let next_va = (thunk_va + thunk_size) % 2 ^ 64 in
    record {
      va = thunk_va;
      target_va = (next_va + sign_extend rel) % 2 ^ 64;
      adjustment = adj;
      segment = s.segment;
      section_off = i;
    }

-- The tests at offset `i` of a section: `some none` is `continue`.
unfoldable pub match_at : Bytes → ℕ → Section → ℕ → Option (Option AdjusterThunk)
match_at pe image_base s i = do
  b0 ← read pe (s.file_off + i)
  (if not (b0 == 0x48) then some none else (do
    b1 ← read pe (s.file_off + i + 1)
    (if not (b1 == 0x83) then some none else (do
      b2 ← read pe (s.file_off + i + 2)
      (if not (b2 == 0xC1) then some none else (do
        b4 ← read pe (s.file_off + i + 4)
        (if not (b4 == 0xE9) then some none else (do
          b3 ← read pe (s.file_off + i + 3)
          rel ← read_u32 pe (s.file_off + i + 5)
          some (
              if ltb_ℤ (pos 0) (to_i8 b3) || ltb_ℤ (to_i8 b3) (negsuc 0x6F)
              then none
              else some (thunk_at image_base s i (to_i8 b3) rel))))))))))

-- The inner loop from offset `i` on. `i` is a uint32_t, so the sums wrap.
unfoldable pub scan_loop :
    ℕ → Bytes → ℕ → Section → ℕ → List AdjusterThunk → Option (List AdjusterThunk)
scan_loop zero pe image_base s i out = none
scan_loop (suc fuel) pe image_base s i out =
    if leb ((i + thunk_size) % 2 ^ 32) s.size
    then (do
      hit ← match_at pe image_base s i
      elim hit [
        | none ↦ scan_loop fuel pe image_base s ((i + 1) % 2 ^ 32) out
        | some t ↦ scan_loop fuel pe image_base s ((i + thunk_size) % 2 ^ 32) (out ++ (t ∷ []))
      ])
    else some out

-- One round of the outer loop, with its two guards.
unfoldable pub scan_section : Bytes → ℕ → Section → List AdjusterThunk → Option (List AdjusterThunk)
scan_section pe image_base s out =
    if ltb s.size thunk_size
    then some out
    else if ltb (length pe) (s.file_off + s.size)
    then some out
    else scan_loop (s.size + 1) pe image_base s 0 out

-- `code_sections[si]` goes with `section_file_offs[si]`.
scan_sections :
    Bytes → List (ℕ × ℕ) → List (ℕ × ℕ) → ℕ → List AdjusterThunk → Option (List AdjusterThunk)
scan_sections pe [] offs image_base out = some out
scan_sections pe (c ∷ cs) [] image_base out = none
scan_sections pe ((sec_va, sec_size) ∷ cs) ((file_off, seg_idx) ∷ offs) image_base out = do
  out' ←
      scan_section pe image_base
        (record { va = sec_va; size = sec_size; file_off = file_off; segment = seg_idx }) out
  scan_sections pe cs offs image_base out'

unfoldable pub scan_adjuster_thunks :
    Bytes → List (ℕ × ℕ) → List (ℕ × ℕ) → ℕ → Option (List AdjusterThunk)
unfolding scan_sections
scan_adjuster_thunks pe code_sections section_file_offs image_base =
    scan_sections pe code_sections section_file_offs image_base []
