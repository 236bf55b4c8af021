-- ===== src/Rsm/UnitTables.antt =====
-- src/rsm/rsm_unit_tables.cpp: where the units begin and which types each of them names. `none` is a
-- read outside the buffer, or a loop that ran out of fuel.
pub mod Anchors
pub mod Tables
use vscode_delphi_extension.Base.{
  ℕ, zero, suc, ◌+◌, ◌-◌, min, Bool, true, false, not, ◌&&◌, ◌||◌, Option, none, some, List, [],
  ◌∷◌, ◌++◌, ◌==◌, ltb, leb, if◌then◌else◌, ◌>>=◌, Bytes, beq_bytes, codes, take, drop, length,
  is_empty, read, read_u32,
}
use vscode_delphi_extension.Rsm.Types.{UnitTypeEntry}
use vscode_delphi_extension.Rsm.Internal.{var_payload_sub_tag}
use vscode_delphi_extension.Rsm.Procedures.{string_at}

unfoldable pub is_print_ascii : Bytes → ℕ → ℕ → Option Bool
is_print_ascii buf p zero = some true
is_print_ascii buf p (suc n) =
    let rest = is_print_ascii buf (p + 1) n in
    (do c ← read buf p; (if ltb c 0x20 || leb 0x7F c then some false else rest))

-- The bytes that it compares are known to be there.
abbrev pub ends_with : Bytes → ℕ → ℕ → Bytes → Bool
ends_with buf p n suf =
    leb (length suf) n && beq_bytes (take (length suf) (drop (p + n - length suf) buf)) suf

unfoldable pub is_source_name : Bytes → ℕ → ℕ → Bool
is_source_name buf p n =
    ends_with buf p n (codes ".pas")
    || ends_with buf p n (codes ".dpr")
    || ends_with buf p n (codes ".inc")
    || ends_with buf p n (codes ".tmp")

-- The signature of a source file at `s`.
unfoldable pub is_source_at : Bytes → ℕ → Option Bool
unfolding is_print_ascii is_source_name
is_source_at buf s = do
  b0 ← read buf s
  b1 ← read buf (s + 1)
  fnl ← read buf (s + 2)
  (if not ((b0 == 0x02 || b0 == 0x3C) && b1 == 0x70)
      then some false
      else if ltb fnl 4 || ltb 80 fnl
      then some false
      else if ltb (length buf) (s + 3 + fnl)
      then some false
      else (do
        printable ← is_print_ascii buf (s + 3) fnl
        (if not printable then some false else some (is_source_name buf (s + 3) fnl))))

unfoldable pub find_source : ℕ → Bytes → ℕ → Option Bool
unfolding is_source_at
find_source zero buf s = some false
find_source (suc n) buf s =
    let rest = find_source n buf (s + 1) in
    (do matched ← is_source_at buf s; (if matched then some true else rest))

pub record UnitAnchor : Type 0 where
  pub file_offset : ℕ
  pub name : Bytes

-- The round at `a`: an anchor with the index behind its name, or none for `++a`.
unfoldable pub anchor_at : Bytes → ℕ → Option (Option (UnitAnchor × ℕ))
unfolding find_source
anchor_at buf a = do
  tag ← read buf a
  nl ← read buf (a + 1)
  (if not (tag == 0x02) then some none else if ltb nl 2 || ltb 40 nl then some none else (do
    printable ← is_print_ascii buf (a + 2) nl
    (if not printable then some none else (do
      let scan_lo = a + 2 + nl
      matched ← find_source (min (length buf) (scan_lo + 200) - 8 - scan_lo) buf scan_lo
      (if matched
          then some (some (record { file_offset = a; name = string_at buf (a + 2) nl }, a + 2 + nl))
          else some none)))))

unfoldable pub anchors_from : ℕ → Bytes → ℕ → List UnitAnchor → Option (List UnitAnchor)
unfolding anchor_at
anchors_from zero buf a out = none
anchors_from (suc fuel) buf a out = if leb (length buf) (a + 60) then some out else (do
  r ← anchor_at buf a
  elim r [
    | none ↦ anchors_from fuel buf (a + 1) out
    | some (u, next) ↦ anchors_from fuel buf next (out ++ u ∷ [])
  ])

unfoldable pub find_anchors : Bytes → Option (List UnitAnchor)
unfolding anchors_from
find_anchors buf = anchors_from (length buf + 1) buf 0x420 []

-- The separator between the blocks of imported units: the index behind it.
unfoldable pub separator : Bytes → ℕ → ℕ → ℕ → Option (Option ℕ)
separator buf hi cur b0 = if not (b0 == 0x63 && ltb (cur + 4) hi) then some none else (do
  b1 ← read buf (cur + 1)
  fnl ← read buf (cur + 2)
  (if not (b1 == 0x64) || ltb fnl 2 || ltb 64 fnl || ltb hi (cur + 3 + fnl + 3)
      then some none
      else (do
        printable ← is_print_ascii buf (cur + 3) fnl
        some (if printable then some (cur + 3 + fnl + 3) else none))))

-- `if (!tab.entries.empty()) break; ++cur; continue;`: none is `break`.
abbrev pub skip : List UnitTypeEntry → ℕ → Option (List UnitTypeEntry × ℕ)
skip entries cur = if not (is_empty entries) then none else some (entries, cur + 1)

-- A round behind the test for a separator.
unfoldable pub entry_at :
    Bytes → ℕ → ℕ → ℕ → ℕ → List UnitTypeEntry → Option (Option (List UnitTypeEntry × ℕ))
entry_at buf scan_lo hi cur b0 entries =
    if not (b0 == var_payload_sub_tag) && not (b0 == 0x67)
    then some (if ltb 500 (cur - scan_lo) then none else skip entries cur)
    else (do
      nl ← read buf (cur + 1)
      (if ltb nl 2 || ltb 80 nl || ltb hi (cur + 2 + nl + 4) then some (skip entries cur) else (do
        printable ← is_print_ascii buf (cur + 2) nl
        (if not printable
            then some (skip entries cur)
            else if b0 == var_payload_sub_tag
            then (do
              hash4 ← read_u32 buf (cur + 2 + nl)
              some (
                  some (
                    entries ++ (record { name = string_at buf (cur + 2) nl; hash4 = hash4 }) ∷ [],
                    cur + 2 + nl + 4,
                  )))
            else some (some (entries, cur + 2 + nl + 4))))))

unfoldable pub entry_round :
    Bytes → ℕ → ℕ → ℕ → List UnitTypeEntry → Option (Option (List UnitTypeEntry × ℕ))
unfolding separator entry_at
entry_round buf scan_lo hi cur entries = do
  b0 ← read buf cur
  sep ← separator buf hi cur b0
  elim sep [
    | some next ↦ some (some (entries, next))
    | none ↦ entry_at buf scan_lo hi cur b0 entries
  ]

unfoldable pub entries_from :
    ℕ → Bytes → ℕ → ℕ → ℕ → List UnitTypeEntry → Option (List UnitTypeEntry)
unfolding entry_round
entries_from zero buf scan_lo hi cur entries = none
entries_from (suc fuel) buf scan_lo hi cur entries = if leb hi (cur + 10) then some entries else (do
  r ← entry_round buf scan_lo hi cur entries
  elim r [
    | none ↦ some entries
    | some (entries', next) ↦ entries_from fuel buf scan_lo hi next entries'
  ])

-- The tables of the units, each up to the next anchor.
unfoldable pub type_tables : Bytes → List UnitAnchor → Option (List (List UnitTypeEntry))
unfolding entries_from
type_tables buf [] = some []
type_tables buf (u ∷ us) = do
  let hi : ℕ = elim us [ [] ↦ length buf | next ∷ _ ↦ next.file_offset ]
  entries ← entries_from (hi + 1) buf (u.file_offset + 0x20) hi (u.file_offset + 0x20) []
  rest ← type_tables buf us
  some (entries ∷ rest)

unfoldable pub anchors_and_tables : Bytes → Option (List UnitAnchor × List (List UnitTypeEntry))
unfolding find_anchors type_tables
anchors_and_tables buf = do
  anchors ← find_anchors buf
  tables ← type_tables buf anchors
  some (anchors, tables)
