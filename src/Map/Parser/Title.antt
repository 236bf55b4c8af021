-- ===== src/Map/Parser/Title.antt =====
-- The line that opens a table of line numbers.
use vscode_delphi_extension.Base.{
  take-append, ℕ, ◌+◌, ◌-◌, ◌≡◌, refl, sym, ◌∙◌, ap, true, false, [], ◌∷◌, ◌++◌, append_assoc, ltb,
  ◌==◌, Bytes, All, All-append, none, some, arith, codes, length, length-append, drop, is_empty,
  drop-append,
}
use vscode_delphi_extension.Map.Types.{LineTable}
use vscode_delphi_extension.Map.Text.{starts_with, rfind_char, rfind, rstrip, lstrip, strip}
use vscode_delphi_extension.Map.Text.Words.{HasNoGap, IsWord}
use vscode_delphi_extension.Map.Text.Lines.{lstrip-stop, rstrip-append, rstrip-word, chop_cr-append}
use vscode_delphi_extension.Map.Numbers.Numeral.{find_char-append, drop-append_one}
use vscode_delphi_extension.Map.Parser.{
  Parser, State, row, header, line_numbers_header, table_names, parse_line, on_line,
  flush_line_table,
}

abbrev kw : Bytes
kw = codes " segment "

rfind_char-none : (c : ℕ) (s : Bytes) → All (λ x. (x == c) ≡ false) s → rfind_char c s ≡ none
unfolding rfind_char
rfind_char-none c [] h = refl
rfind_char-none c (x ∷ s) (hx, h) = rw (rfind_char-none c s h, hx) refl

rfind_char-append :
    (c : ℕ) (xs ys : Bytes)
    → All (λ x. (x == c) ≡ false) ys
    → rfind_char c (xs ++ c ∷ ys) ≡ some (length xs)
unfolding rfind_char
rfind_char-append c [] ys h = rw (rfind_char-none c ys h) (ground arith)
rfind_char-append c (x ∷ xs) ys h = rw (rfind_char-append c xs ys h) (ground arith)

rfind-append :
    (pat xs s : Bytes) (i : ℕ) → rfind pat s ≡ some i → rfind pat (xs ++ s) ≡ some (length xs + i)
unfolding rfind
rfind-append pat [] s i h = h ∙ ground arith
rfind-append pat (x ∷ xs) s i h = rw (rfind-append pat xs s i h) (ground arith)

-- A pattern with a space in it does not start a text without one.
starts_with-no_gap : (s p q : Bytes) → HasNoGap s → starts_with s (p ++ b' ' ∷ q) ≡ false
unfolding starts_with
starts_with-no_gap [] [] q h = refl
starts_with-no_gap [] (c ∷ p) q h = refl
starts_with-no_gap (x ∷ s) [] q (hx, h) = ground (arith, hx)
starts_with-no_gap (x ∷ s) (c ∷ p) q (hx, h) = ground (arith, starts_with-no_gap s p q h)

rfind-no_gap : (s : Bytes) → HasNoGap s → rfind kw s ≡ none
unfolding rfind
rfind-no_gap [] h = unfold starts_with in refl
rfind-no_gap (x ∷ s) h =
    rw (rfind-no_gap s h.1, starts_with-no_gap (x ∷ s) [] (codes "segment ") h) refl

rfind-kw : (s : Bytes) → HasNoGap s → rfind kw (kw ++ s) ≡ some 0
unfolding rfind starts_with
rfind-kw s h = rw (rfind-no_gap s h, starts_with-no_gap s (codes "segment") [] h) refl

-- A line with its carriage return, as a header, as a row, and blank.
pub parse_line-header :
    (p : Parser) (l : Bytes) (p' : Parser)
    → header p (rstrip (lstrip l)) ≡ some p'
    → parse_line p (l ++ 13 ∷ []) ≡ p'
unfolding parse_line on_line
parse_line-header p l p' h = ap (on_line p) (chop_cr-append l) ∙ rw (h, on_line) refl

pub parse_line-row :
    (p : Parser) (l : Bytes)
    → header p (rstrip (lstrip l)) ≡ none
    → is_empty (strip l) ≡ false
    → parse_line p (l ++ 13 ∷ []) ≡ row p.state p l
unfolding parse_line on_line
parse_line-row p l h some_text =
    ap (on_line p) (chop_cr-append l) ∙ rw (h, on_line) (rw some_text refl)

pub parse_line-blank : (p : Parser) → parse_line p (13 ∷ []) ≡ p
unfolding parse_line on_line header
parse_line-blank p = refl

-- The three names: a module without an opening parenthesis, any source path, and a segment that is
-- one word without a closing parenthesis.
pub record IsNamed (t : LineTable) : Type 0 where
  pub module_is : All (λ c. (c == b'(') ≡ false) t.module_name
  pub segment_is : All (λ c. (c == b')') ≡ false) t.segment_name
  pub segment-IsWord : IsWord t.segment_name

abbrev pub names : LineTable → Bytes
names t = t.module_name ++ b'(' ∷ (t.source_path ++ b')' ∷ (kw ++ t.segment_name))

abbrev pub title : LineTable → Bytes
title t = codes "Line numbers for " ++ names t

table_names-names :
    (t : LineTable) → IsNamed t → table_names (names t) ≡ some (record t { lines = [] })
unfolding table_names
table_names-names t h =
    let m = t.module_name in
    let src = t.source_path in
    let seg = t.segment_name in
    let end = kw ++ seg in
    let lead = m ++ b'(' ∷ src in
    let left : names t ≡ lead ++ b')' ∷ end = sym (append_assoc m (b'(' ∷ src) (b')' ∷ end)) in
    let at_left = find_char-append b'(' m (src ++ b')' ∷ end) h.module_is in
    let at_right : rfind_char b')' (names t) ≡ some (length lead) = rw left (
      rfind_char-append b')' lead end
        (All-append (λ c. (c == b')') ≡ false) kw seg (ground arith) h.segment_is)) in
    let at_kw : rfind kw (names t) ≡ some (length (lead ++ b')' ∷ []) + 0) =
      rw (left, ← append_assoc lead (b')' ∷ []) end)
        (rfind-append kw (lead ++ b')' ∷ []) end 0 (rfind-kw seg h.segment-IsWord.1)) in
    let lead_length : length lead ≡ length m + (length src + 1) =
      omega (arith, length-append {0} m (b'(' ∷ src)) in
    let kw_at : length (lead ++ b')' ∷ []) ≡ length lead + 1 =
      omega (arith, length-append {0} lead (b')' ∷ [])) in
    let first : ltb (length m) (length lead) ≡ true = ground (arith, lead_length) in
    let second : ltb (length lead) (length (lead ++ b')' ∷ []) + 0) ≡ true =
      ground (arith, kw_at) in
    let inner : length lead - length m - 1 ≡ length src = omega arith in
    let whole : names t ≡ (lead ++ (b')' ∷ kw)) ++ seg =
      left ∙ sym (append_assoc lead (b')' ∷ kw) seg) in
    let kw_end : length (lead ++ b')' ∷ []) + 0 + 9 ≡ length (lead ++ (b')' ∷ kw)) =
      omega (arith, length-append {0} lead (b')' ∷ kw)) in
    let behind : drop (length (lead ++ b')' ∷ []) + 0 + 9) (names t) ≡ seg =
      rw (kw_end, whole) (drop-append (lead ++ (b')' ∷ kw)) seg) in
    rw
      (
        at_left,
        at_right,
        at_kw,
        first,
        second,
        behind,
        inner,
        take-append m (b'(' ∷ (src ++ b')' ∷ end)),
        drop-append_one m (src ++ b')' ∷ end) b'(',
        take-append src (b')' ∷ end),
      )
      refl

title-kept : (t : LineTable) → IsNamed t → rstrip (lstrip (title t)) ≡ title t
title-kept t h =
    let front =
      codes "Line numbers for " ++ (t.module_name ++ b'(' ∷ (t.source_path ++ b')' ∷ kw)) in
    let whole : title t ≡ front ++ t.segment_name = simp append_assoc in
    let stays = lstrip-stop b'L' (drop 1 (title t)) refl in
    ap rstrip stays
    ∙ rw whole (
        rstrip-append front t.segment_name h.segment-IsWord.0
          (rstrip-word t.segment_name h.segment-IsWord.1))

header-title :
    (p : Parser) (t : LineTable) → header p (title t) ≡ some (line_numbers_header p (names t))
unfolding header
header-title p t = unfold starts_with in refl

line_numbers_header-names :
    (p : Parser) (t : LineTable)
    → IsNamed t
    → line_numbers_header p (names t) ≡ record (flush_line_table p) {
      state = State.line_numbers;
      current_table = record t { lines = [] };
    }
unfolding line_numbers_header
line_numbers_header-names p t h = rw (table_names-names t h, line_numbers_header) refl

-- The line opens its table, once the table before it is stored.
pub parse_line-title :
    (p : Parser) (t : LineTable)
    → IsNamed t
    → parse_line p (title t ++ 13 ∷ []) ≡ record (flush_line_table p) {
      state = State.line_numbers;
      current_table = record t { lines = [] };
    }
parse_line-title p t h =
    parse_line-header p (title t) _ (ap (header p) (title-kept t h) ∙ header-title p t)
    ∙ line_numbers_header-names p t h
