-- ===== src/Base/Words.antt =====
-- Bytes, machine words and their casts, and reads that fault outside the buffer.
use Prim.Native.Nat.{ℕ, zero, suc, ◌+◌, ◌*◌, ◌^◌, ◌≤◌, ◌<◌, bit_or}
use mathlib.Core.Path.{◌≡◌}
use mathlib.Core.Option.{Option, none, some}
use mathlib.Core.List.{List, [], ◌∷◌}
use native.Mathlib.Omega.{arith}
use vscode_delphi_extension.Base.Tests.{ltb, if◌then◌else◌, ◌>>=◌}
use vscode_delphi_extension.Base.Lists.{length, get_or, All}
use vscode_delphi_extension.Base.Int.{ℤ, pos, sub_ℕ}
use vscode_delphi_extension.Base.Bits.{bit_or_low_high}

abbrev pub Bytes : Type 0
Bytes = List ℕ

abbrev pub IsByte : ℕ → Type 0
IsByte b = b < 256

abbrev pub IsBytes : Bytes → Type 0
IsBytes = All IsByte

-- The element at an index, 0 outside.
abbrev pub at : Bytes → ℕ → ℕ
at code i = get_or code i 0

-- `code[i]`: `none` is a read outside the buffer.
abbrev pub read : Bytes → ℕ → Option ℕ
read code i = if ltb i (length code) then some (at code i) else none

pub at-lt : (code : Bytes) → IsBytes code → (i : ℕ) → at code i < 256
at-lt [] h i = omega arith
at-lt (b ∷ bs) (hb, h) zero = hb
at-lt (b ∷ bs) (hb, h) (suc i) = at-lt bs h i

-- The casts to int8_t, int16_t and int32_t of a value that fits the width.
unfoldable pub to_i8 : ℕ → ℤ
to_i8 b = if ltb b 128 then pos b else sub_ℕ b 256

unfoldable pub to_i16 : ℕ → ℤ
to_i16 w = if ltb w (2 ^ 15) then pos w else sub_ℕ w (2 ^ 16)

unfoldable pub to_i32 : ℕ → ℤ
to_i32 w = if ltb w (2 ^ 31) then pos w else sub_ℕ w (2 ^ 32)

-- `b0 | b1 << 8`.
unfoldable pub or16 : ℕ → ℕ → ℕ
or16 b0 b1 = bit_or b0 (b1 * 2 ^ 8)

-- `b0 | b1 << 8 | b2 << 16 | b3 << 24`.
unfoldable pub or32 : ℕ → ℕ → ℕ → ℕ → ℕ
or32 b0 b1 b2 b3 = bit_or (bit_or (bit_or b0 (b1 * 2 ^ 8)) (b2 * 2 ^ 16)) (b3 * 2 ^ 24)

pub or16_sum : (b0 b1 : ℕ) → IsByte b0 → or16 b0 b1 ≡ b0 + b1 * 256
unfolding or16
or16_sum b0 b1 h = bit_or_low_high 8 b0 b1 h

pub or32_sum :
    (b0 b1 b2 b3 : ℕ)
    → IsByte b0
    → IsByte b1
    → IsByte b2
    → or32 b0 b1 b2 b3 ≡ b0 + b1 * 2 ^ 8 + b2 * 2 ^ 16 + b3 * 2 ^ 24
unfolding or32
or32_sum b0 b1 b2 b3 h0 h1 h2 = rw (
  bit_or_low_high 8 b0 b1 h0,
  bit_or_low_high 16 (b0 + b1 * 2 ^ 8) b2 (omega arith),
  bit_or_low_high 24 (b0 + b1 * 2 ^ 8 + b2 * 2 ^ 16) b3 (omega arith),
)

-- Four bytes from `i` on, lowest first.
unfoldable pub read_u32 : Bytes → ℕ → Option ℕ
read_u32 code i = do
  b0 ← read code i
  b1 ← read code (i + 1)
  b2 ← read code (i + 2)
  b3 ← read code (i + 3)
  some (or32 b0 b1 b2 b3)

-- The same word where the four bytes are there.
abbrev pub word_at : Bytes → ℕ → ℕ
word_at code i = or32 (at code i) (at code (i + 1)) (at code (i + 2)) (at code (i + 3))

pub read_u32_lem :
    (code : Bytes) (i : ℕ) → i + 4 ≤ length code → read_u32 code i ≡ some (word_at code i)
unfolding read_u32
read_u32_lem code i h = ground arith
