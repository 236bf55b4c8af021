-- ===== src/Pe/SizeSniffer/Bounds.antt =====
-- The sniffer on every buffer: it ends, reads inside the buffer only, and reports operand widths.
use vscode_delphi_extension.Base.{
  ℕ, zero, suc, ◌+◌, ◌≤◌, ◌<◌, ◌≡◌, ◌⊎◌, inl, inr, Bool, some, [], ◌∷◌, ℤ, Bytes, length, at,
  Returns, All, arith, emplace, int_eq, read_u32_lem, Option-cases, Returns-bind,
}
use vscode_delphi_extension.Pe.SizeSniffer.{
  Sizes, Round, stop, skip, found, operand_prefix, rex_prefix, opcode_shape, sniff_operand,
  sniff_opcode, sniff_at, sniff_loop, sniff_stack_var_sizes,
}

abbrev pub IsWidth : ℕ → Type 0
IsWidth w = (w ≡ 1) ⊎ (w ≡ 2) ⊎ (w ≡ 4) ⊎ (w ≡ 8)

-- A recorded MOV ends inside the buffer, behind index `i`.
abbrev pub IsFine : Bytes → ℕ → Round → Type 0
IsFine code i stop = Unit
IsFine code i skip = Unit
IsFine code i (found disp width next) = IsWidth width × (i < next) × (next ≤ length code)

opcode_shape-IsWidth :
    (rex_w op16 : Bool) (op : ℕ) {width imm_after : ℕ}
    → opcode_shape rex_w op16 op ≡ some (width, imm_after)
    → IsWidth width
unfolding opcode_shape
opcode_shape-IsWidth rex_w op16 op h = ground arith

sniff_operand-IsFine :
    (code : Bytes) (width imm_after pos i : ℕ)
    → IsWidth width
    → i < pos
    → Returns (IsFine code i) (sniff_operand code width imm_after pos)
unfolding sniff_operand
sniff_operand-IsFine code width imm_after pos i w h = ground (arith, read_u32_lem code (pos + 1))

operand_prefix-Returns : (code : Bytes) (i : ℕ) → Returns (λ r. i ≤ r.1) (operand_prefix code i)
unfolding operand_prefix
operand_prefix-Returns code i = ground arith

rex_prefix-Returns : (code : Bytes) (i : ℕ) → Returns (λ r. i ≤ r.1) (rex_prefix code i)
unfolding rex_prefix
rex_prefix-Returns code i = ground arith

sniff_opcode-IsFine :
    (code : Bytes) (op16 rex_w : Bool) (pos i : ℕ)
    → i ≤ pos
    → Returns (IsFine code i) (sniff_opcode code op16 rex_w pos)
unfolding sniff_opcode
sniff_opcode-IsFine code op16 rex_w pos i h =
    elim (Option-cases (opcode_shape rex_w op16 (at code pos))) [
      | inl none_found ↦ ground arith
      | inr ((width, imm_after), shape) ↦ ground (
        arith,
        sniff_operand-IsFine code width imm_after (pos + 1) i
            (opcode_shape-IsWidth rex_w op16 (at code pos) shape) (omega arith),
      )
    ]

pub sniff_at-IsFine : (code : Bytes) (i : ℕ) → Returns (IsFine code i) (sniff_at code i)
unfolding sniff_at
sniff_at-IsFine code i =
    Returns-bind _ _ (operand_prefix code i) _ (operand_prefix-Returns code i) (λ (op16, p) h.
      Returns-bind _ _ (rex_prefix code p) _ (rex_prefix-Returns code p)
        (λ (rex_w, pos) k. sniff_opcode-IsFine code op16 rex_w pos i (omega arith)))

abbrev pub HasWidths : Sizes → Type 0
HasWidths m = All (λ (e : ℤ × ℕ). IsWidth e.1) m

emplace-HasWidths :
    (d : ℤ) (w : ℕ) (m : Sizes) → IsWidth w → HasWidths m → HasWidths (emplace d w m)
unfolding emplace
emplace-HasWidths d w [] hw h = (hw, tt)
emplace-HasWidths d w ((e, v) ∷ m) hw (hv, h) = ground (arith, emplace-HasWidths d w m hw h)

sniff_loop-HasWidths :
    (fuel : ℕ) (code : Bytes) (i : ℕ) (out : Sizes)
    → length code < i + fuel
    → i ≤ length code
    → HasWidths out
    → Returns HasWidths (sniff_loop fuel code i out)
unfolding sniff_loop
sniff_loop-HasWidths zero code i out enough le h = absurd (omega arith)
sniff_loop-HasWidths (suc fuel) code i out enough le h = elim (Option-cases (sniff_at code i)) [
  | inl fault ↦ absurd (rw fault at (sniff_at-IsFine code i))
  | inr (stop, e) ↦ ground arith
  | inr (skip, e) ↦ ground (arith, sniff_loop-HasWidths fuel code (i + 1) out (omega arith))
  | inr (found d w next, e) ↦
      let fine : IsFine code i (found d w next) = rw e at (sniff_at-IsFine code i) in
      ground (
        arith,
        sniff_loop-HasWidths fuel code next (emplace d w out) (omega arith) fine.2
            (emplace-HasWidths d w out fine.0 h),
      )
]

-- On every buffer the sniffer ends without a read outside the buffer, and every width that it
-- reports is 1, 2, 4 or 8.
pub sniff_stack_var_sizes-HasWidths :
    (code : Bytes) → Returns HasWidths (sniff_stack_var_sizes code)
unfolding sniff_stack_var_sizes
sniff_stack_var_sizes-HasWidths code =
    sniff_loop-HasWidths (length code + 1) code 0 [] (omega arith) (omega arith) tt
