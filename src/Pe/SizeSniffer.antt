-- ===== src/Pe/SizeSniffer.antt =====
-- src/pe/size_sniffer.h: the widths of rbp-relative MOVs in a function body. A null pointer is
-- the empty list. `none` is a read outside the buffer, or a loop that ran out of fuel.
pub mod Masks
pub mod Bounds
pub mod RoundTrip
use vscode_delphi_extension.Base.{
  ℕ, zero, suc, ◌+◌, Bool, true, false, not, ◌&&◌, ◌||◌, Option, none, some, List, [], ltb, leb,
  ◌==◌, if◌then◌else◌, ◌>>=◌, ℤ, Bytes, length, at, read, read_u32, to_i8, to_i32, bit_and, emplace,
  int_eq,
}

-- Offset from rbp, and width.
abbrev pub Sizes : Type 0
Sizes = List (ℤ × ℕ)

-- One round of the loop: leave it, go on at the next byte, or record a MOV and go on behind it.
pub data Round : Type 0 where
  stop : Round
  skip : Round
  found : ℤ → ℕ → ℕ → Round

unfoldable pub is_rbp_disp8 : ℕ → Bool
is_rbp_disp8 mr = bit_and mr 0xC7 == 0x45

unfoldable pub is_rbp_disp32 : ℕ → Bool
is_rbp_disp32 mr = bit_and mr 0xC7 == 0x85

unfoldable pub is_rex : ℕ → Bool
is_rex b = bit_and b 0xF0 == 0x40

unfoldable pub has_rex_w : ℕ → Bool
has_rex_w b = not (bit_and b 0x08 == 0)

-- 0x66 at `pos`, and the index behind it.
unfoldable pub operand_prefix : Bytes → ℕ → Option (Bool × ℕ)
operand_prefix code pos =
    if ltb pos (length code)
    then (do b ← read code pos; some (if b == 0x66 then (true, pos + 1) else (false, pos)))
    else some (false, pos)

-- A REX prefix at `pos`: whether it widens to 64 bits, and the index behind it.
unfoldable pub rex_prefix : Bytes → ℕ → Option (Bool × ℕ)
rex_prefix code pos =
    if ltb pos (length code)
    then (do b ← read code pos; some (if is_rex b then (has_rex_w b, pos + 1) else (false, pos)))
    else some (false, pos)

-- `rex_w ? 8 : (op16 ? 2 : 4)`.
abbrev pub operand_width : Bool → Bool → ℕ
operand_width rex_w op16 = if rex_w then 8 else if op16 then 2 else 4

-- The `switch`: width and bytes of immediate, `none` for `default: continue`.
unfoldable pub opcode_shape : Bool → Bool → ℕ → Option (ℕ × ℕ)
opcode_shape rex_w op16 op =
    if op == 0x88 || op == 0x8A
    then some (1, 0)
    else if op == 0xC6
    then some (1, 1)
    else if op == 0x89 || op == 0x8B
    then some (operand_width rex_w op16, 0)
    else if op == 0xC7
    then some (operand_width rex_w op16, if op16 then 2 else 4)
    else none

-- From the ModR/M byte at `pos` on.
unfoldable pub sniff_operand : Bytes → ℕ → ℕ → ℕ → Option Round
sniff_operand code width imm_after pos = if leb (length code) pos then some skip else (do
  mr ← read code pos
  (if is_rbp_disp8 mr
      then (if leb (length code) (pos + 1) then some skip else (do
        b ← read code (pos + 1)
        some (
            if ltb (length code) (pos + 2 + imm_after)
            then skip
            else found (to_i8 b) width (pos + 2 + imm_after))))
      else if is_rbp_disp32 mr
      then (if ltb (length code) (pos + 1 + 4) then some skip else (do
        v ← read_u32 code (pos + 1)
        some (
            if ltb (length code) (pos + 5 + imm_after)
            then skip
            else found (to_i32 v) width (pos + 5 + imm_after))))
      else some skip))

-- From the opcode at `pos` on.
unfoldable pub sniff_opcode : Bytes → Bool → Bool → ℕ → Option Round
sniff_opcode code op16 rex_w pos = if leb (length code) pos then some stop else (do
  op ← read code pos
  elim (opcode_shape rex_w op16 op) [
    | none ↦ some skip
    | some (width, imm_after) ↦ sniff_operand code width imm_after (pos + 1)
  ])

-- The body of the loop at index `i`.
unfoldable pub sniff_at : Bytes → ℕ → Option Round
sniff_at code i = do
  (op16, after_66) ← operand_prefix code i
  (rex_w, pos) ← rex_prefix code after_66
  sniff_opcode code op16 rex_w pos

-- The loop from index `i` on.
unfoldable pub sniff_loop : ℕ → Bytes → ℕ → Sizes → Option Sizes
sniff_loop zero code i out = none
sniff_loop (suc fuel) code i out =
    if ltb i (length code)
    then (do
      round ← sniff_at code i
      elim round [
        | stop ↦ some out
        | skip ↦ sniff_loop fuel code (i + 1) out
        | found disp width next ↦ sniff_loop fuel code next (emplace disp width out)
      ])
    else some out

-- Each round moves on by one byte at least.
unfoldable pub sniff_stack_var_sizes : Bytes → Option Sizes
sniff_stack_var_sizes code = sniff_loop (length code + 1) code 0 []
