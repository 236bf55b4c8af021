-- ===== src/Dwarf/BytesBuf/Sleb.antt =====
-- `sleb128` against the decoder that the DWARF standard gives.
use native.Mathlib.Nat.{pow-suc}
use vscode_delphi_extension.Base.{
  ℕ, zero, suc, ◌+◌, ◌-◌, ◌*◌, ◌/◌, ◌%◌, ◌^◌, ◌<◌, ◌≡◌, refl, ◌∙◌, Bool, true, false, not, ◌&&◌,
  ◌||◌, Option, none, some, [], ◌∷◌, append_assoc, ltb, ◌==◌, if◌then◌else◌, ◌>>=◌, ℤ, pos, negsuc,
  ◌≤ℤ◌, eqb_ℤ, sub_ℕ, Bytes, bit_and, bit_or, bit_and_127, bit_or_128, all_below, agree_tests,
  arith, Bool-cases, inl, inr,
}
use vscode_delphi_extension.Dwarf.BytesBuf.Appends.{Appends}
use vscode_delphi_extension.Dwarf.BytesBuf.{push, low_group, shift_right_7, sleb_loop, sleb128}

-- `b + 128 * v` for a group `b` of seven bits.
unfoldable pub shift_in : ℕ → ℤ → ℤ
shift_in b (pos n) = pos (b + 128 * n)
shift_in b (negsuc n) = negsuc (128 * n + 127 - b)

-- Groups of seven bits, lowest first; bit 6 of the last one is the sign.
unfoldable pub decode_sleb : Bytes → Option (ℤ × Bytes)
decode_sleb [] = none
decode_sleb (b ∷ rest) =
    let more = decode_sleb rest in
    if ltb b 128
    then some (if ltb b 64 then pos b else sub_ℕ b 128, rest)
    else (do (v, r) ← more; some (shift_in (b % 128) v, r))

low_group-lt : (v : ℤ) → low_group v < 128
unfolding low_group
low_group-lt (pos n) = omega (arith, bit_and_127 n)
low_group-lt (negsuc n) = omega arith

sign_bit : (b : ℕ) → b < 256 → not (bit_and b 0x40 == 0) ≡ (b / 64 % 2 == 1)
unfolding all_below
sign_bit = agree_tests (λ b. not (bit_and b 0x40 == 0)) (λ b. b / 64 % 2 == 1) refl

shift_in-low_group : (v : ℤ) → shift_in (low_group v) (shift_right_7 v) ≡ v
unfolding shift_in low_group shift_right_7
shift_in-low_group (pos n) = ground (arith, bit_and_127 n)
shift_in-low_group (negsuc n) = ground (arith, bit_and_127 n)

-- The test that ends the loop.
abbrev is_last : ℤ → Bool
is_last v =
    let sign = not (bit_and (low_group v) 0x40 == 0) in
    let v' = shift_right_7 v in eqb_ℤ v' (pos 0) && not sign || eqb_ℤ v' (negsuc 0) && sign

last_value :
    (v : ℤ)
    → is_last v ≡ true
    → (if ltb (low_group v) 64 then pos (low_group v) else sub_ℕ (low_group v) 128) ≡ v
unfolding low_group shift_right_7
last_value (pos n) h =
    ground (arith, bit_and_127 n, sign_bit (bit_and n 127) (omega (arith, bit_and_127 n)))
last_value (negsuc n) h =
    ground (arith, bit_and_127 n, sign_bit (127 - bit_and n 127) (omega arith))

-- The magnitude that `k` groups hold.
abbrev Fits : ℕ → ℤ → Type 0
Fits k (pos n) = 2 * n < 128 ^ k
Fits k (negsuc n) = 2 * n < 128 ^ k

Fits-shift : (k : ℕ) (v : ℤ) → Fits (suc k) v → Fits k (shift_right_7 v)
unfolding shift_right_7
Fits-shift k (pos n) h = omega (arith, pow-suc 128 k)
Fits-shift k (negsuc n) h = omega (arith, pow-suc 128 k)

one_group_is_last : (v : ℤ) → Fits 1 v → is_last v ≡ true
unfolding low_group shift_right_7
one_group_is_last (pos n) h =
    ground (arith, bit_and_127 n, sign_bit (bit_and n 127) (omega (arith, bit_and_127 n)))
one_group_is_last (negsuc n) h =
    ground (arith, bit_and_127 n, sign_bit (127 - bit_and n 127) (omega arith))

some_fuel : (k : ℕ) (v : ℤ) → is_last v ≡ false → Fits (suc k) v → 0 < k
some_fuel zero v e h = cc (one_group_is_last v h)
some_fuel (suc k) v e h = omega arith

sleb_last :
    (fuel : ℕ) (buf : Bytes) (v : ℤ)
    → is_last v ≡ true
    → Appends ℤ decode_sleb buf v (push buf (low_group v)) (suc fuel)
unfolding decode_sleb
sleb_last fuel buf v h = record {
  added = low_group v ∷ [];
  appended = refl;
  decodes = λ rest. ground (arith, low_group-lt v, last_value v h);
  are_bytes = (omega (arith, low_group-lt v), tt);
  size = omega arith;
}

sleb_more :
    (fuel : ℕ) (buf : Bytes) (v : ℤ) (out : Bytes)
    → Appends ℤ decode_sleb (push buf (bit_or (low_group v) 0x80)) (shift_right_7 v) out fuel
    → Appends ℤ decode_sleb buf v out (suc fuel)
unfolding decode_sleb
sleb_more fuel buf v out a =
    let small = low_group-lt v in
    let group : bit_or (low_group v) 0x80 ≡ low_group v + 128 = bit_or_128 (low_group v) small in
    let same : bit_or (low_group v) 0x80 % 128 ≡ low_group v = omega (arith, group) in
    record {
      added = bit_or (low_group v) 0x80 ∷ a.added;
      appended = a.appended ∙ append_assoc buf (bit_or (low_group v) 0x80 ∷ []) a.added;
      decodes = λ rest. ground (arith, group, same, a.decodes rest, shift_in-low_group v);
      are_bytes = (omega (arith, group), a.are_bytes);
      size = omega (arith, a.size);
    }

sleb_loop-Appends :
    (fuel : ℕ) (buf : Bytes) (v : ℤ)
    → 0 < fuel
    → Fits fuel v
    → Appends ℤ decode_sleb buf v (sleb_loop fuel buf v) fuel
unfolding sleb_loop
sleb_loop-Appends zero buf v p h = absurd (omega arith)
sleb_loop-Appends (suc fuel) buf v p h = elim (Bool-cases (is_last v)) [
  | inl last ↦ rw last (sleb_last fuel buf v last)
  | inr more ↦ rw more (
      sleb_more fuel buf v _ (
        sleb_loop-Appends fuel (push buf (bit_or (low_group v) 0x80)) (shift_right_7 v)
          (some_fuel fuel v more h) (Fits-shift fuel v h)))
]

-- Every int64_t is written as at most 10 bytes behind the buffer, and the decoder of the standard
-- reads it back from them whatever follows, and stops right behind them.
pub sleb128-Appends :
    (buf : Bytes) (v : ℤ)
    → negsuc (2 ^ 63 - 1) ≤ℤ v
    → v ≤ℤ pos (2 ^ 63 - 1)
    → Appends ℤ decode_sleb buf v (sleb128 buf v) 10
unfolding sleb128
sleb128-Appends buf (pos n) lo hi = sleb_loop-Appends 10 buf (pos n) (omega arith) (omega arith)
sleb128-Appends buf (negsuc n) lo hi =
    sleb_loop-Appends 10 buf (negsuc n) (omega arith) (omega arith)
