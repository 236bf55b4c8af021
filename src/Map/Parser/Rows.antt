-- ===== src/Map/Parser/Rows.antt =====
-- The rows of the sections, as Delphi lays them out, and what the parser reads off them.
use vscode_delphi_extension.Base.{
  ℕ, ◌^◌, ◌<◌, ◌≡◌, ◌≢◌, refl, ◌∙◌, ap, List, [], ◌∷◌, map, Bytes, All, some, arith,
}
use vscode_delphi_extension.Map.Types.{LineRecord}
use vscode_delphi_extension.Map.Text.{tokenize}
use vscode_delphi_extension.Map.Text.Words.{IsGap, Spaced, Spaced-IsLine, lay, tokenize-lay}
use vscode_delphi_extension.Map.Numbers.{parse_seg_offset}
use vscode_delphi_extension.Map.Numbers.Numeral.{
  numeral, numeral-HasNoGap, numeral-ne, seg_offset, seg_offset-IsWord, parse_seg_offset-seg_offset,
  parse_dec32-numeral,
}
use vscode_delphi_extension.Map.Parser.{line_records}

-- A line record in print: the gaps before its two words, and the digits of its three numbers.
pub record Shown : Type 0 where
  pub gap : Bytes
  pub line_digits : ℕ
  pub between : Bytes
  pub segment_digits : ℕ
  pub offset_digits : ℕ
  pub shows : LineRecord

abbrev pub address : Shown → Bytes
address e = seg_offset e.segment_digits e.offset_digits e.shows.segment_id e.shows.segment_offset

-- The gaps are white space, the numbers fit their digits and the types of the fields.
pub record IsShown (e : Shown) : Type 0 where
  pub gap_ne : e.gap ≢ []
  pub gap-IsGap : IsGap e.gap
  pub between_ne : e.between ≢ []
  pub between-IsGap : IsGap e.between
  pub counts : (0 < e.line_digits) × (0 < e.segment_digits) × (0 < e.offset_digits)
  pub line_fits : (e.shows.line < 10 ^ e.line_digits) × (e.shows.line < 2 ^ 32)
  pub segment_fits : (e.shows.segment_id < 16 ^ e.segment_digits) × (e.shows.segment_id < 2 ^ 16)
  pub offset_fits :
      (e.shows.segment_offset < 16 ^ e.offset_digits) × (e.shows.segment_offset < 2 ^ 64)

abbrev pub shown_words : List Shown → List (Bytes × Bytes)
shown_words [] = []
shown_words (e ∷ es) =
    (e.gap, numeral 10 e.line_digits e.shows.line) ∷ (e.between, address e) ∷ shown_words es

-- A row of line records, and the white space at its end.
abbrev pub shown_row : List Shown → Bytes → Bytes
shown_row es end = lay (shown_words es) end

shown_words-Spaced : (es : List Shown) → All IsShown es → Spaced (shown_words es)
shown_words-Spaced [] h = tt
shown_words-Spaced (e ∷ es) (he, h) = (
  (
    he.gap_ne,
    he.gap-IsGap,
    (
      numeral-ne 10 (omega arith) (omega arith) e.line_digits e.shows.line he.counts.0,
      numeral-HasNoGap 10 (omega arith) (omega arith) e.line_digits e.shows.line,
    ),
  ),
  (
    (
      he.between_ne,
      he.between-IsGap,
      seg_offset-IsWord e.segment_digits e.offset_digits e.shows.segment_id e.shows.segment_offset,
    ),
    shown_words-Spaced es h,
  ),
)

parse-address :
    (e : Shown)
    → IsShown e
    → parse_seg_offset (address e) ≡ some (e.shows.segment_id, e.shows.segment_offset)
parse-address e h =
    parse_seg_offset-seg_offset e.segment_digits e.offset_digits e.shows.segment_id
      e.shows.segment_offset h.counts.1 h.counts.2 h.segment_fits.0 h.offset_fits.0 h.segment_fits.1
      h.offset_fits.1

line_records-shown :
    (es : List Shown)
    → All IsShown es
    → line_records (map (λ p. p.1) (shown_words es)) ≡ map (λ e. e.shows) es
unfolding line_records
line_records-shown [] h = refl
line_records-shown (e ∷ es) (he, h) =
    rw
      (
        parse-address e he,
        parse_dec32-numeral e.line_digits e.shows.line he.counts.0 he.line_fits.0 he.line_fits.1,
        line_records-shown es h,
        line_records,
      )
      refl

-- A row of line numbers gives the records that it shows, in order.
pub line_records-shown_row :
    (es : List Shown) (end : Bytes)
    → All IsShown es
    → IsGap end
    → line_records (tokenize (shown_row es end)) ≡ map (λ e. e.shows) es
line_records-shown_row es end h he =
    ap line_records (
      tokenize-lay (shown_words es) end (Spaced-IsLine (shown_words es) (shown_words-Spaced es h))
        he)
    ∙ line_records-shown es h
