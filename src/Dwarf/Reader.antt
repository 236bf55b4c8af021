-- ===== src/Dwarf/Reader.antt =====
-- A reader of `.debug_info` after the DWARF standard: entries with the attributes that their
-- abbreviation lists, each in its form.
pub mod Writes
pub mod Forms
pub mod Locations
pub mod Entries
use vscode_delphi_extension.Base.{
  ℕ, zero, suc, ◌+◌, ◌-◌, Bool, true, false, List, [], ◌∷◌, Option, none, some, ◌==◌, ltb,
  if◌then◌else◌, ◌>>=◌, ℤ, Bytes, take, drop, length, is_empty,
}
use vscode_delphi_extension.Dwarf.BytesBuf.Appends.{decode_le}
use vscode_delphi_extension.Dwarf.BytesBuf.Uleb.{decode_uleb}
use vscode_delphi_extension.Dwarf.BytesBuf.Sleb.{decode_sleb}
use vscode_delphi_extension.Dwarf.Abbrev.{AbbrevCodes, Abbrev, abbrevs}
use vscode_delphi_extension.Dwarf.Info.{InfoCodes}

-- What a location says: the frame base at an offset from rbp, an offset from the frame base, or an
-- address.
pub data Place : Type 0 where
  frame_base frame_slot : ℤ → Place
  fixed : ℕ → Place

pub data Value : Type 0 where
  number : ℕ → Value
  text : Bytes → Value
  location : Place → Value

-- An entry has its tag, its children flag and its attributes; the code 0 ends a list of children.
pub data Entry : Type 0 where
  end_of_children : Entry
  die : ℕ → ℕ → List (ℕ × Value) → Entry

unfoldable pub read_text : Bytes → Option (Bytes × Bytes)
read_text [] = none
read_text (b ∷ bytes) =
    let more = read_text bytes in
    if b == 0 then some ([], bytes) else (do (s, rest) ← more; some (b ∷ s, rest))

-- One operation with its operand, with nothing behind it.
unfoldable pub read_place : InfoCodes → Bytes → Option Place
read_place c [] = none
read_place c (op ∷ bytes) =
    if op == c.op_addr
    then (do (v, rest) ← decode_le 8 bytes; (if is_empty rest then some (fixed v) else none))
    else (do
      (v, rest) ← decode_sleb bytes
      (if is_empty rest
          then (if op == c.op_breg6
              then some (frame_base v)
              else if op == c.op_fbreg
              then some (frame_slot v)
              else none)
          else none))

unfoldable pub read_location : InfoCodes → Bytes → Option (Place × Bytes)
unfolding read_place
read_location c bytes = do
  (len, block) ← decode_uleb bytes
  (if ltb (length block) len
      then none
      else (do p ← read_place c (take len block); some (p, drop len block)))

unfoldable pub read_number : Option (ℕ × Bytes) → Option (Value × Bytes)
read_number r = do (v, rest) ← r; some (number v, rest)

unfoldable pub read_form : AbbrevCodes → InfoCodes → ℕ → Bytes → Option (Value × Bytes)
unfolding read_text read_location read_number
read_form ac c form bytes =
    if form == ac.form_string
    then (do (s, rest) ← read_text bytes; some (text s, rest))
    else if form == ac.form_exprloc
    then (do (p, rest) ← read_location c bytes; some (location p, rest))
    else if form == ac.form_udata
    then read_number (decode_uleb bytes)
    else if form == ac.form_data1
    then read_number (decode_le 1 bytes)
    else if form == ac.form_flag
    then read_number (decode_le 1 bytes)
    else if form == ac.form_data2
    then read_number (decode_le 2 bytes)
    else if form == ac.form_sec_offset
    then read_number (decode_le 4 bytes)
    else if form == ac.form_ref_addr
    then read_number (decode_le 4 bytes)
    else if form == ac.form_addr
    then read_number (decode_le 8 bytes)
    else none

-- The attributes in the order of the abbreviation.
unfoldable pub read_attributes :
    AbbrevCodes → InfoCodes → List (ℕ × ℕ) → Bytes → Option (List (ℕ × Value) × Bytes)
unfolding read_form
read_attributes ac c [] bytes = some ([], bytes)
read_attributes ac c ((name, form) ∷ more) bytes = do
  (v, bytes1) ← read_form ac c form bytes
  (vs, rest) ← read_attributes ac c more bytes1
  some ((name, v) ∷ vs, rest)

unfoldable pub find_abbrev : ℕ → List Abbrev → Option Abbrev
find_abbrev code [] = none
find_abbrev code (a ∷ as_) = if a.code == code then some a else find_abbrev code as_

unfoldable pub read_entry : AbbrevCodes → InfoCodes → Bytes → Option (Entry × Bytes)
unfolding read_attributes find_abbrev
read_entry ac c bytes = do
  (code, bytes1) ← decode_uleb bytes
  (if code == 0 then some (end_of_children, bytes1) else (do
    a ← find_abbrev code (abbrevs ac)
    (vs, rest) ← read_attributes ac c a.attributes bytes1
    some (die a.tag a.children vs, rest)))

-- How deep the next entry stands.
unfoldable pub depth_behind : AbbrevCodes → ℕ → Entry → ℕ
depth_behind ac depth end_of_children = depth - 1
depth_behind ac depth (die tag children vs) =
    if children == ac.children_yes then depth + 1 else depth

-- The entries of a unit, up to the end of the children of its first entry.
unfoldable pub read_unit : ℕ → AbbrevCodes → InfoCodes → ℕ → Bytes → Option (List Entry × Bytes)
unfolding read_entry depth_behind
read_unit zero ac c depth bytes = none
read_unit (suc fuel) ac c depth bytes = do
  (e, bytes1) ← read_entry ac c bytes
  let depth' = depth_behind ac depth e
  (if depth' == 0
      then some (e ∷ [], bytes1)
      else (do (es, rest) ← read_unit fuel ac c depth' bytes1; some (e ∷ es, rest)))
