-- ===== src/Map/Text.antt =====
-- src/map/map_reader.cpp: the helpers on text. A string_view is the list of its bytes, and an
-- index into a line is the rest of the line behind it.
pub mod Words
pub mod Lines
use vscode_delphi_extension.Base.{
  ℕ, zero, suc, ◌+◌, Bool, true, false, not, ◌&&◌, ◌||◌, Option, none, some, List, [], ◌∷◌, ◌++◌,
  ◌==◌, if◌then◌else◌, Bytes, is_empty, codes, length, drop, take,
}

-- The members of string_view that the parser calls.
unfoldable pub starts_with : Bytes → Bytes → Bool
starts_with s [] = true
starts_with [] (p ∷ ps) = false
starts_with (c ∷ s) (p ∷ ps) = c == p && starts_with s ps

unfoldable pub find_char : ℕ → Bytes → Option ℕ
find_char c [] = none
find_char c (x ∷ s) =
    if x == c then some 0 else elim (find_char c s) [ some i ↦ some (i + 1) | none ↦ none ]

unfoldable pub rfind_char : ℕ → Bytes → Option ℕ
rfind_char c [] = none
rfind_char c (x ∷ s) = elim (rfind_char c s) [
  | some i ↦ some (i + 1)
  | none ↦ if x == c then some 0 else none
]

unfoldable pub contains : Bytes → Bytes → Bool
unfolding starts_with
contains [] pat = starts_with [] pat
contains (x ∷ s) pat = starts_with (x ∷ s) pat || contains s pat

unfoldable pub rfind : Bytes → Bytes → Option ℕ
unfolding starts_with
rfind pat [] = if starts_with [] pat then some 0 else none
rfind pat (x ∷ s) = elim (rfind pat s) [
  | some i ↦ some (i + 1)
  | none ↦ if starts_with (x ∷ s) pat then some 0 else none
]

abbrev pub is_trailing : ℕ → Bool
is_trailing c = c == b' ' || c == 13 || c == 9 || c == 10

abbrev pub is_leading : ℕ → Bool
is_leading c = c == b' ' || c == 9

unfoldable pub rstrip : Bytes → Bytes
rstrip [] = []
rstrip (c ∷ s) = let rest = rstrip s in if is_empty rest && is_trailing c then [] else c ∷ rest

unfoldable pub lstrip : Bytes → Bytes
lstrip [] = []
lstrip (c ∷ s) = if is_leading c then lstrip s else c ∷ s

unfoldable pub strip : Bytes → Bytes
unfolding lstrip rstrip
strip s = lstrip (rstrip s)

abbrev pub is_ws : ℕ → Bool
is_ws c = c == b' ' || c == 9 || c == 13 || c == 10 || c == 11 || c == 12

-- `while (i < line.size() && isWS(line[i])) ++i`.
unfoldable pub skip_ws : Bytes → Bytes
skip_ws [] = []
skip_ws (c ∷ s) = if is_ws c then skip_ws s else c ∷ s

-- `while (i < line.size() && !isWS(line[i])) ++i`: what is passed over, and the rest.
unfoldable pub word : Bytes → Bytes × Bytes
word [] = ([], [])
word (c ∷ s) = let (w, rest) = word s in if is_ws c then ([], c ∷ s) else (c ∷ w, rest)

-- The loop of `tokenize`, with the bytes from `start` on while the index is inside a token.
unfoldable pub tokens_from : Option Bytes → Bytes → List Bytes
tokens_from none [] = []
tokens_from (some w) [] = w ∷ []
tokens_from none (c ∷ s) = tokens_from (if is_ws c then none else some (c ∷ [])) s
tokens_from (some w) (c ∷ s) = elim (is_ws c) [
  | true ↦ w ∷ tokens_from none s
  | false ↦ tokens_from (some (w ++ c ∷ [])) s
]

unfoldable pub tokenize : Bytes → List Bytes
unfolding tokens_from
tokenize line = tokens_from none line

-- The lines that the main loop cuts off: each ends at a newline or at the end of the text.
unfoldable pub lines_from : Bytes → Bytes → List Bytes
lines_from [] [] = []
lines_from (x ∷ cur) [] = (x ∷ cur) ∷ []
lines_from cur (c ∷ s) = elim (c == 10) [
  | true ↦ cur ∷ lines_from [] s
  | false ↦ lines_from (cur ++ c ∷ []) s
]

unfoldable pub split_lines : Bytes → List Bytes
unfolding lines_from
split_lines text = lines_from [] text

-- `if (!line.empty() && line.back() == '\r') line.remove_suffix(1)`.
unfoldable pub chop_cr : Bytes → Bytes
chop_cr [] = []
chop_cr (c ∷ s) = if is_empty s && c == 13 then [] else c ∷ chop_cr s
