-- ===== src/Dwarf/BytesBuf.antt =====
-- src/dwarf/dwarf_internal.h, `BytesBuf`: the buffer is the list of its bytes, and each method
-- returns the new buffer. The arguments of `u8` to `u64` are taken modulo the width by the casts.
pub mod Appends
pub mod Uleb
pub mod Sleb
pub mod Patch
use vscode_delphi_extension.Base.{
  ℕ, zero, suc, ◌+◌, ◌-◌, ◌*◌, ◌/◌, ◌%◌, ◌^◌, ◌≤◌, Bool, true, false, not, ◌&&◌, ◌||◌, Option, none,
  some, List, [], ◌∷◌, ◌++◌, ltb, ◌==◌, if◌then◌else◌, ◌>>=◌, ℤ, pos, negsuc, eqb_ℤ, Bytes, length,
  bit_and, bit_or,
}

-- `static_cast<uint8_t>(v >> (i*8))`.
abbrev pub byte_of : ℕ → ℕ → ℕ
byte_of v i = v / 2 ^ (i * 8) % 256

abbrev pub push : Bytes → ℕ → Bytes
push buf b = buf ++ (b ∷ [])

abbrev pub u8 : Bytes → ℕ → Bytes
u8 buf v = push buf (v % 256)

abbrev pub u16 : Bytes → ℕ → Bytes
u16 buf v = push (push buf (byte_of v 0)) (byte_of v 1)

abbrev pub u32 : Bytes → ℕ → Bytes
u32 buf v = push (push (push (push buf (byte_of v 0)) (byte_of v 1)) (byte_of v 2)) (byte_of v 3)

abbrev pub u64 : Bytes → ℕ → Bytes
u64 buf v =
    push (push (push (push (u32 buf v) (byte_of v 4)) (byte_of v 5)) (byte_of v 6)) (byte_of v 7)

-- The `do` loop of `uleb128`, with fuel.
unfoldable pub uleb_loop : ℕ → Bytes → ℕ → Bytes
uleb_loop zero buf v = buf
uleb_loop (suc fuel) buf v =
    let b = bit_and v 0x7F in
    let v' = v / 2 ^ 7 in
    let more = uleb_loop fuel (push buf (bit_or b 0x80)) v' in
    if not (v' == 0) then more else push buf b

-- Ten groups of seven bits hold every uint64_t.
unfoldable pub uleb128 : Bytes → ℕ → Bytes
uleb128 = uleb_loop 10

-- `v & 0x7F` and `v >>= 7` on an int64_t: two's complement, and an arithmetic shift.
unfoldable pub low_group : ℤ → ℕ
low_group (pos n) = bit_and n 0x7F
low_group (negsuc n) = 127 - bit_and n 0x7F

unfoldable pub shift_right_7 : ℤ → ℤ
shift_right_7 (pos n) = pos (n / 2 ^ 7)
shift_right_7 (negsuc n) = negsuc (n / 2 ^ 7)

-- The `while` loop of `sleb128`, with fuel.
unfoldable pub sleb_loop : ℕ → Bytes → ℤ → Bytes
sleb_loop zero buf v = buf
sleb_loop (suc fuel) buf v =
    let b = low_group v in
    let v' = shift_right_7 v in
    let sign = not (bit_and b 0x40 == 0) in
    let more = sleb_loop fuel (push buf (bit_or b 0x80)) v' in
    if eqb_ℤ v' (pos 0) && not sign || eqb_ℤ v' (negsuc 0) && sign then push buf b else more

unfoldable pub sleb128 : Bytes → ℤ → Bytes
unfolding sleb_loop
sleb128 = sleb_loop 10

abbrev pub cstr : Bytes → Bytes → Bytes
cstr buf s = push (buf ++ s) 0

abbrev pub raw : Bytes → Bytes → Bytes
raw buf bytes = buf ++ bytes

-- The placeholder, and its offset.
abbrev pub reserved_u32 : Bytes → Bytes × ℕ
reserved_u32 buf = (buf ++ (0 ∷ 0 ∷ 0 ∷ 0 ∷ []), length buf)

-- `bytes_[i] = b`; `none` is a write outside the buffer.
unfoldable pub write : Bytes → ℕ → ℕ → Option Bytes
write [] i b = none
write (x ∷ xs) zero b = some (b ∷ xs)
write (x ∷ xs) (suc i) b = do ys ← write xs i b; some (x ∷ ys)

unfoldable pub patch_u32 : Bytes → ℕ → ℕ → Option Bytes
patch_u32 buf off v = do
  buf0 ← write buf off (byte_of v 0)
  buf1 ← write buf0 (off + 1) (byte_of v 1)
  buf2 ← write buf1 (off + 2) (byte_of v 2)
  write buf2 (off + 3) (byte_of v 3)
