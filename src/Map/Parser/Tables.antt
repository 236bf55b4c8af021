-- ===== src/Map/Parser/Tables.antt =====
-- The tables of line numbers of a map file, as Delphi prints them, and what the parser makes of
-- the text.
use vscode_delphi_extension.Base.{
  ℕ, ◌<◌, ◌≡◌, ◌≢◌, refl, ◌∙◌, ap, true, false, ◌&&◌, List, [], ◌∷◌, ◌++◌, leb, map, ◌==◌, Bytes,
  All, none, arith, is_empty,
}
use vscode_delphi_extension.Map.Types.{LineRecord}
use vscode_delphi_extension.Map.Text.{rstrip, lstrip, strip, is_leading, tokenize}
use vscode_delphi_extension.Map.Text.Words.{IsGap}
use vscode_delphi_extension.Map.Text.Lines.{IsLine, lstrip-leading, lstrip-stop, rstrip-cons}
use vscode_delphi_extension.Map.Numbers.Numeral.{numeral, numeral-All, numeral-ne}
use vscode_delphi_extension.Map.Parser.{Parser, State, row, header, line_records, parse_line}
use vscode_delphi_extension.Map.Parser.Rows.{
  Shown, IsShown, shown_row, line_records-shown_row, address,
}
use vscode_delphi_extension.Map.Parser.Title.{parse_line-row}

abbrev IsDigits : Bytes → Type 0
IsDigits s = All (λ c. (leb b'0' c && leb c b'9') ≡ true) s

digit-ne : (c x : ℕ) → (leb b'0' c && leb c b'9') ≡ true → b'9' < x → (c == x) ≡ false
digit-ne c x h hx = ground (arith, h)

header-digit :
    (p : Parser) (c : ℕ) (s : Bytes) → (leb b'0' c && leb c b'9') ≡ true → header p (c ∷ s) ≡ none
unfolding header
header-digit p c s h =
    rw
      (
        digit-ne c b'S' h (omega arith),
        digit-ne c b'D' h (omega arith),
        digit-ne c b'A' h (omega arith),
        digit-ne c b'B' h (omega arith),
        digit-ne c b'L' h (omega arith),
        digit-ne c b'P' h (omega arith),
        header,
      )
      refl

keep_step : (c : ℕ) (s : Bytes) → is_empty (rstrip s) ≡ false → rstrip (c ∷ s) ≡ c ∷ rstrip s
unfolding rstrip
keep_step c s h = ground (arith, h)

rstrip-behind : (g s : Bytes) → is_empty (rstrip s) ≡ false → rstrip (g ++ s) ≡ g ++ rstrip s
rstrip-behind [] s h = refl
rstrip-behind (c ∷ g) s h =
    let ih = rstrip-behind g s h in
    keep_step c (g ++ s) (ap is_empty ih ∙ is_empty-append g (rstrip s) h)
    ∙ ap (λ (l : Bytes). c ∷ l) ih
  where
    is_empty-append : (xs ys : Bytes) → is_empty ys ≡ false → is_empty (xs ++ ys) ≡ false
    is_empty-append [] ys e = e
    is_empty-append (x ∷ xs) ys e = refl

-- A row whose first word is a numeral is no header, and not blank.
row_of_digits :
    (p : Parser) (g w s : Bytes)
    → All (λ c. is_leading c ≡ true) g
    → IsDigits w
    → w ≢ []
    → (header p (rstrip (lstrip (g ++ (w ++ s)))) ≡ none)
      × (is_empty (strip (g ++ (w ++ s))) ≡ false)
row_of_digits p g [] s hg h ne = absurd (ne refl)
row_of_digits p g (c ∷ w) s hg (hc, h) ne =
    let stays = lstrip-stop c (w ++ s) (ground (arith, hc)) in
    let keeps = rstrip-cons c (w ++ s) (ground (arith, hc)) in
    (
      ap (λ (l : Bytes). header p (rstrip l)) (lstrip-leading g (c ∷ (w ++ s)) hg ∙ stays)
          ∙ ap (header p) keeps
          ∙ header-digit p c (rstrip (w ++ s)) hc,
      unfold strip in
          ap is_empty (
            ap lstrip (
              rstrip-behind g (c ∷ (w ++ s)) (ap is_empty keeps) ∙ ap (λ (l : Bytes). g ++ l) keeps)
            ∙ lstrip-leading g (c ∷ rstrip (w ++ s)) hg
            ∙ lstrip-stop c (rstrip (w ++ s)) (ground (arith, hc))),
    )

-- A row of a table: its records, and the white space at its end.
abbrev pub Row : Type 0
Row = List Shown × Bytes

abbrev pub row_text : Row → Bytes
row_text (es, end) = shown_row es end

-- At least one record, on one line, behind spaces.
abbrev pub IsRow : Row → Type 0
IsRow ([], end) = ⊥
IsRow (e ∷ es, end) =
    All IsShown (e ∷ es)
    × IsGap end
    × All (λ c. is_leading c ≡ true) e.gap
    × IsLine (shown_row (e ∷ es) end)

abbrev pub records : List Row → List LineRecord
records [] = []
records ((es, end) ∷ rs) = map (λ e. e.shows) es ++ records rs

-- In the section of line numbers the row adds its records to the table.
abbrev pub with_records : Parser → List LineRecord → Parser
with_records p rs = record p {
  current_table = record (p.current_table) { lines = p.current_table.lines ++ rs };
}

row-line_numbers :
    (p : Parser) (l : Bytes)
    → p.state ≡ State.line_numbers
    → row p.state p l ≡ with_records p (line_records (tokenize l))
row-line_numbers p l h = ap (λ (s : State). row s p l) h ∙ unfold row in refl

pub parse_line-row_text :
    (p : Parser) (r : Row)
    → IsRow r
    → p.state ≡ State.line_numbers
    → parse_line p (row_text r ++ 13 ∷ []) ≡ with_records p (map (λ e. e.shows) r.0)
parse_line-row_text p ([], end) h hs = absurd h
parse_line-row_text p (e ∷ es, end) (shown, gap, lead, line) hs =
    let w = numeral 10 e.line_digits e.shows.line in
    let digits =
      numeral-All 10 (omega arith) (omega arith) (λ c. (leb b'0' c && leb c b'9') ≡ true)
        e.line_digits e.shows.line (λ d small. ground arith) in
    let ne =
      numeral-ne 10 (omega arith) (omega arith) e.line_digits e.shows.line shown.0.counts.0 in
    let (no_header, text) =
      row_of_digits p e.gap w (e.between ++ (address e ++ shown_row es end)) lead digits ne in
    parse_line-row p (shown_row (e ∷ es) end) no_header text
    ∙ row-line_numbers p (shown_row (e ∷ es) end) hs
    ∙ ap (with_records p) (line_records-shown_row (e ∷ es) end shown gap)
