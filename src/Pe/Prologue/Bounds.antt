-- ===== src/Pe/Prologue/Bounds.antt =====
-- `parse_prologue` on every buffer: it reads inside the buffer only, and its fields stay in range.
use vscode_delphi_extension.Base.{
  ℕ, zero, suc, ◌+◌, ◌-◌, ◌^◌, ◌≤◌, ◌<◌, ℤ, pos, negsuc, ◌≤ℤ◌, Bytes, IsBytes, at, at-lt, to_i8,
  to_i32, or32_sum, Returns, Returns-bind, arith, read_u32_lem, word_at,
}
use vscode_delphi_extension.Pe.Prologue.{ParsedPrologue, skip_pushes, parse_sub_rsp, parse_prologue}

-- A value of int32_t.
abbrev pub IsI32 : ℤ → Type 0
IsI32 z = (negsuc (2 ^ 31 - 1) ≤ℤ z) × (z ≤ℤ pos (2 ^ 31 - 1))

abbrev pub InRange : ParsedPrologue → Type 0
InRange r = IsI32 r.sub_rsp × (r.extra_pushes ≤ 16)

to_i8-IsI32 : (b : ℕ) → b < 256 → IsI32 (to_i8 b)
unfolding to_i8
to_i8-IsI32 b h = ground arith

to_i32-IsI32 : (w : ℕ) → w < 2 ^ 32 → IsI32 (to_i32 w)
unfolding to_i32
to_i32-IsI32 w h = ground arith

word_at-lt : (code : Bytes) → IsBytes code → (i : ℕ) → word_at code i < 2 ^ 32
word_at-lt code h i = omega (
  arith,
  at-lt code h i,
  at-lt code h (i + 1),
  at-lt code h (i + 2),
  at-lt code h (i + 3),
  or32_sum _ (at code (i + 1)) (at code (i + 2)) (at code (i + 3)) (at-lt code h i)
      (at-lt code h (i + 1)) (at-lt code h (i + 2)),
)

skip_pushes_total :
    (n : ℕ) (code : Bytes) (i extras : ℕ)
    → Returns (λ r. r.1 ≤ n + extras) (skip_pushes n code i extras)
unfolding skip_pushes
skip_pushes_total zero code i extras = omega arith
skip_pushes_total (suc n) code i extras = ground (
  arith,
  skip_pushes_total n code (i + 1) (extras + 1),
  skip_pushes_total n code (i + 2) (extras + 1),
)

parse_sub_rsp_total :
    (code : Bytes) (i extras : ℕ)
    → IsBytes code
    → extras ≤ 16
    → Returns InRange (parse_sub_rsp code i extras)
unfolding parse_sub_rsp
parse_sub_rsp_total code i extras h e = ground (
  arith,
  to_i8-IsI32 (at code (i + 3)) (at-lt code h (i + 3)),
  read_u32_lem code (i + 3),
  to_i32-IsI32 (word_at code (i + 3)) (word_at-lt code h (i + 3)),
)

-- On every buffer of bytes the parser ends without a read outside the buffer. The frame size is
-- an int32_t, and at most 16 pushes are counted.
pub parse_prologue-InRange : (code : Bytes) → IsBytes code → Returns InRange (parse_prologue code)
unfolding parse_prologue
parse_prologue-InRange code h = ground (
  arith,
  Returns-bind (λ r. r.1 ≤ 16) InRange (skip_pushes 16 code 1 0) (λ r. parse_sub_rsp code r.0 r.1)
      (skip_pushes_total 16 code 1 0) (λ r e. parse_sub_rsp_total code r.0 r.1 h e),
)
