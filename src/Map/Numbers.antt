-- ===== src/Map/Numbers.antt =====
-- src/map/map_reader.cpp: the numbers of a map file, and the members of the standard library by
-- which it reads them.
pub mod Numeral
use vscode_delphi_extension.Base.{
  ℕ, zero, suc, ◌+◌, ◌-◌, ◌*◌, ◌%◌, ◌^◌, Bool, true, false, ◌&&◌, ◌||◌, Option, none, some, List,
  [], ◌∷◌, ◌==◌, ltb, leb, if◌then◌else◌, ◌>>=◌, Bytes, is_empty, length, take, drop,
}
use vscode_delphi_extension.Map.Text.{find_char, starts_with}

-- The value of a digit in a base.
unfoldable pub digit : ℕ → ℕ → Option ℕ
digit base c =
    let v =
      if leb b'0' c && leb c b'9'
      then c - b'0'
      else if leb b'A' c && leb c b'Z'
      then c - b'A' + 10
      else if leb b'a' c && leb c b'z'
      then c - b'a' + 10
      else base in
    if ltb v base then some v else none

-- The digits at the front: how many, the number they spell behind `n`, and the rest.
unfoldable pub digits : ℕ → ℕ → Bytes → ℕ × ℕ × Bytes
unfolding digit
digits base n [] = (0, n, [])
digits base n (c ∷ s) = elim (digit base c) [
  | none ↦ (0, n, c ∷ s)
  | some d ↦ let (k, v, rest) = digits base (n * base + d) s in (k + 1, v, rest)
]

-- `std::from_chars` into an unsigned integer below `limit`: whether `ec` is `errc{}`, the new
-- value of a variable that held `old`, and what lies behind `ptr`.
unfoldable pub from_chars : ℕ → ℕ → ℕ → Bytes → Bool × ℕ × Bytes
unfolding digits
from_chars base limit old s =
    let (k, v, rest) = digits base 0 s in
    if k == 0 then (false, old, s) else if leb limit v then (false, old, rest) else (true, v, rest)

-- `std::strtoul` in base 10 of a token, which has no space in front; an unsigned long is below
-- `limit`.
unfoldable pub strtoul : ℕ → Bytes → ℕ
unfolding digits
strtoul limit [] = 0
strtoul limit (c ∷ s) =
    let clamp : ℕ → ℕ = λ v. if leb limit v then limit - 1 else v in
    if c == b'-'
    then (let v = (digits 10 0 s).1 in if leb limit v then limit - 1 else (limit - v) % limit)
    else if c == b'+'
    then clamp (digits 10 0 s).1
    else clamp (digits 10 0 (c ∷ s)).1

-- "AAAA:BBBBBBBB". The results of a failed call are not read by any caller.
unfoldable pub parse_seg_offset : Bytes → Option (ℕ × ℕ)
unfolding from_chars find_char
parse_seg_offset tok = do
  colon ← find_char b':' tok
  let (ok1, segment, rest1) = from_chars 16 (2 ^ 16) 0 (take colon tok)
  let (ok2, offset, rest2) = from_chars 16 (2 ^ 64) 0 (drop (colon + 1) tok)
  (if ok1 && is_empty rest1
      then (if ok2 && is_empty rest2 then some (segment, offset) else none)
      else none)

-- Drops one `H` or `h` at the end.
unfoldable pub chop_h : Bytes → Bytes
chop_h [] = []
chop_h (c ∷ s) = if is_empty s && (c == b'H' || c == b'h') then [] else c ∷ chop_h s

unfoldable pub parse_hex : Bytes → ℕ
unfolding from_chars chop_h
parse_hex tok = (from_chars 16 (2 ^ 64) 0 (chop_h tok)).1

unfoldable pub parse_dec32 : Bytes → ℕ
unfolding from_chars
parse_dec32 tok = (from_chars 10 (2 ^ 32) 0 tok).1
