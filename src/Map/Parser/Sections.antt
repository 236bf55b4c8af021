-- ===== src/Map/Parser/Sections.antt =====
-- Sections of line numbers one after the other, from the bytes of the file to its tables.
use vscode_delphi_extension.Base.{
  ◌≡◌, ◌≢◌, refl, sym, ◌∙◌, ap, false, List, [], ◌∷◌, ◌++◌, append_assoc, append-nil, map, Bytes,
  All, All-append, is_empty, map-append,
}
use vscode_delphi_extension.Map.Types.{LineTable, LineRecord, MapFile, no_file}
use vscode_delphi_extension.Map.Text.Lines.{IsLine, join_lines, split_lines-join_lines}
use vscode_delphi_extension.Map.Parser.{
  Parser, State, flush_line_table, parse_line, parse_lines, parse, start,
}
use vscode_delphi_extension.Map.Parser.Rows.{Shown}
use vscode_delphi_extension.Map.Parser.Title.{IsNamed, title, parse_line-title, parse_line-blank}
use vscode_delphi_extension.Map.Parser.Tables.{
  Row, row_text, IsRow, records, with_records, parse_line-row_text,
}

-- A table in print: its names and its rows.
pub record Section : Type 0 where
  pub names : LineTable
  pub rows : List Row

-- The table that the section shows.
abbrev pub table : Section → LineTable
table s = record (s.names) { lines = records s.rows }

-- The title, an empty line, the rows, and an empty line.
abbrev pub section_lines : Section → List Bytes
section_lines s = title s.names ∷ [] ∷ (map row_text s.rows ++ [] ∷ [])

abbrev pub file_lines : List Section → List Bytes
file_lines [] = []
file_lines (s ∷ ss) = section_lines s ++ file_lines ss

pub record IsSection (s : Section) : Type 0 where
  pub named : IsNamed s.names
  pub one_line : IsLine (title s.names)
  pub some_rows : s.rows ≢ []
  pub rows-IsRow : All IsRow s.rows

abbrev cr : Bytes → Bytes
cr l = l ++ 13 ∷ []

parse_lines-append :
    (p : Parser) (xs ys : List Bytes) → parse_lines p (xs ++ ys) ≡ parse_lines (parse_lines p xs) ys
unfolding parse_lines
parse_lines-append p [] ys = refl
parse_lines-append p (x ∷ xs) ys = parse_lines-append (parse_line p x) xs ys

parse_lines-rows :
    (p : Parser) (rs : List Row)
    → All IsRow rs
    → p.state ≡ State.line_numbers
    → parse_lines p (map cr (map row_text rs)) ≡ with_records p (records rs)
unfolding parse_lines
parse_lines-rows p [] h hs = ap (with_lines p) (sym (append-nil p.current_table.lines))
  where
    with_lines : Parser → List LineRecord → Parser
    with_lines q ls = record q { current_table = record (q.current_table) { lines = ls } }
parse_lines-rows p (r ∷ rs) (hr, h) hs =
    let shows = map (λ (e : Shown). e.shows) r.0 in
    ap (λ (q : Parser). parse_lines q (map cr (map row_text rs))) (parse_line-row_text p r hr hs)
    ∙ parse_lines-rows (with_records p shows) rs h hs
    ∙ ap
        (λ (ls : List LineRecord). record p {
          current_table = record (p.current_table) { lines = ls };
        })
        (append_assoc p.current_table.lines shows (records rs))

-- The parser behind a section: its table is open, and all tables before it are stored.
abbrev opened : MapFile → Section → Parser
opened f s = record { state = State.line_numbers; current_table = table s; file = f }

parse_lines-section :
    (p : Parser) (s : Section)
    → IsSection s
    → parse_lines p (map cr (section_lines s)) ≡ opened (flush_line_table p).file s
unfolding parse_lines
parse_lines-section p s h =
    let q : Parser = record (flush_line_table p) {
      state = State.line_numbers;
      current_table = record (s.names) { lines = [] };
    } in
    let rest = map cr (map row_text s.rows ++ [] ∷ []) in
    ap (λ (r : Parser). parse_lines (parse_line r (13 ∷ [])) rest)
      (parse_line-title p s.names h.named)
    ∙ ap (λ (r : Parser). parse_lines r rest) (parse_line-blank q)
    ∙ ap (parse_lines q) (map-append cr (map row_text s.rows) ([] ∷ []))
    ∙ parse_lines-append q (map cr (map row_text s.rows)) ((13 ∷ []) ∷ [])
    ∙ ap (λ (r : Parser). parse_line r (13 ∷ [])) (parse_lines-rows q s.rows h.rows-IsRow refl)
    ∙ parse_line-blank (opened (flush_line_table p).file s)

abbrev store : MapFile → List LineTable → MapFile
store f ts = record f { line_tables = f.line_tables ++ ts }

records-ne : (s : Section) → IsSection s → is_empty (records s.rows) ≡ false
records-ne s h = rows_ne s.rows h.some_rows h.rows-IsRow
  where
    rows_ne : (rs : List Row) → rs ≢ [] → All IsRow rs → is_empty (records rs) ≡ false
    rows_ne [] ne h = absurd (ne refl)
    rows_ne (([], end) ∷ rs) ne (hr, h) = absurd hr
    rows_ne ((e ∷ es, end) ∷ rs) ne h = refl

-- The table that is open is stored at the next flush.
flush-opened :
    (f : MapFile) (s : Section)
    → IsSection s
    → (flush_line_table (opened f s)).file ≡ store f (table s ∷ [])
unfolding flush_line_table
flush-opened f s h = rw (records-ne s h) refl

-- Whatever the parser has read before, the sections add their tables, in order.
pub parse_lines-sections :
    (p : Parser) (ss : List Section)
    → All IsSection ss
    → (flush_line_table (parse_lines p (map cr (file_lines ss)))).file
      ≡ store (flush_line_table p).file (map table ss)
unfolding parse_lines
parse_lines-sections p [] h =
    ap (λ (ts : List LineTable). record ((flush_line_table p).file) { line_tables = ts })
      (sym (append-nil (flush_line_table p).file.line_tables))
parse_lines-sections p (s ∷ ss) (hs, h) =
    let f = (flush_line_table p).file in
    let finished = λ (r : Parser). (flush_line_table r).file in
    ap (λ (ls : List Bytes). finished (parse_lines p ls))
      (map-append cr (section_lines s) (file_lines ss))
    ∙ ap finished (parse_lines-append p (map cr (section_lines s)) (map cr (file_lines ss)))
    ∙ ap (λ (r : Parser). finished (parse_lines r (map cr (file_lines ss))))
        (parse_lines-section p s hs)
    ∙ parse_lines-sections (opened f s) ss h
    ∙ ap (λ (g : MapFile). store g (map table ss)) (flush-opened f s hs)
    ∙ ap (λ (ts : List LineTable). record f { line_tables = ts })
        (append_assoc f.line_tables (table s ∷ []) (map table ss))

lines-IsLine : (ss : List Section) → All IsSection ss → All IsLine (file_lines ss)
lines-IsLine [] h = tt
lines-IsLine (s ∷ ss) (hs, h) = (
  hs.one_line,
  (
    tt,
    All-append IsLine (map row_text s.rows ++ [] ∷ []) (file_lines ss)
        (All-append IsLine (map row_text s.rows) ([] ∷ []) (rows_lines s.rows hs.rows-IsRow)
          (tt, tt))
        (lines-IsLine ss h),
  ),
)
  where
    rows_lines : (rs : List Row) → All IsRow rs → All IsLine (map row_text rs)
    rows_lines [] h = tt
    rows_lines (([], end) ∷ rs) (hr, h) = absurd hr
    rows_lines ((e ∷ es, end) ∷ rs) (hr, h) = (hr.3, rows_lines rs h)

-- A file of printed sections of line numbers is read back: the parser finds exactly their tables,
-- in order, each with its three names and all records of its rows, and nothing else.
pub parse-file_lines :
    (ss : List Section)
    → All IsSection ss
    → parse (join_lines (file_lines ss)) ≡ record no_file { line_tables = map table ss }
unfolding parse
parse-file_lines ss h =
    ap (λ (ls : List Bytes). (flush_line_table (parse_lines start ls)).file)
      (split_lines-join_lines (file_lines ss) (lines-IsLine ss h))
    ∙ parse_lines-sections start ss h
    ∙ unfold flush_line_table in refl
