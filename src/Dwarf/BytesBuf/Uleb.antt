-- ===== src/Dwarf/BytesBuf/Uleb.antt =====
-- `uleb128` against the decoder that the DWARF standard gives.
use vscode_delphi_extension.Base.{
  ℕ, zero, suc, ◌+◌, ◌*◌, ◌/◌, ◌%◌, ◌^◌, ◌<◌, ◌≡◌, refl, ◌∙◌, Option, none, some, [], ◌∷◌,
  append_assoc, ltb, ◌==◌, if◌then◌else◌, ◌>>=◌, Bytes, bit_and, bit_or, arith, bit_and_127,
  bit_or_128, ◌≢◌, Bool-cases, ==_iff, inl, inr,
}
use native.Mathlib.Nat.{pow-suc}
use vscode_delphi_extension.Dwarf.BytesBuf.Appends.{Appends}
use vscode_delphi_extension.Dwarf.BytesBuf.{push, uleb_loop, uleb128}

-- Groups of seven bits, lowest first; the last one has no top bit.
unfoldable pub decode_uleb : Bytes → Option (ℕ × Bytes)
decode_uleb [] = none
decode_uleb (b ∷ rest) =
    let more = decode_uleb rest in
    if ltb b 128 then some (b, rest) else (do (v, r) ← more; some (b % 128 + 128 * v, r))

uleb_last :
    (fuel : ℕ) (buf : Bytes) (v : ℕ)
    → v < 128
    → Appends ℕ decode_uleb buf v (push buf (bit_and v 0x7F)) (suc fuel)
unfolding decode_uleb
uleb_last fuel buf v h = record {
  added = bit_and v 0x7F ∷ [];
  appended = refl;
  decodes = λ rest. ground (arith, bit_and_127 v);
  are_bytes = (omega (arith, bit_and_127 v), tt);
  size = omega arith;
}

uleb_more :
    (fuel : ℕ) (buf : Bytes) (v : ℕ) (out : Bytes)
    → Appends ℕ decode_uleb (push buf (bit_or (bit_and v 0x7F) 0x80)) (v / 2 ^ 7) out fuel
    → Appends ℕ decode_uleb buf v out (suc fuel)
unfolding decode_uleb
uleb_more fuel buf v out a =
    let group : bit_or (bit_and v 0x7F) 0x80 ≡ v % 128 + 128 =
      omega (arith, bit_and_127 v, bit_or_128 (bit_and v 0x7F)) in
    record {
      added = bit_or (bit_and v 0x7F) 0x80 ∷ a.added;
      appended = a.appended ∙ append_assoc buf (bit_or (bit_and v 0x7F) 0x80 ∷ []) a.added;
      decodes = λ rest. ground (arith, group, a.decodes rest);
      are_bytes = (omega (arith, group), a.are_bytes);
      size = omega (arith, a.size);
    }

some_fuel : (fuel n : ℕ) → n ≢ 0 → n < 128 ^ fuel → 0 < fuel
some_fuel zero n ne h = absurd (ne (omega arith))
some_fuel (suc fuel) n ne h = omega arith

uleb_loop-Appends :
    (fuel : ℕ) (buf : Bytes) (v : ℕ)
    → 0 < fuel
    → v < 128 ^ fuel
    → Appends ℕ decode_uleb buf v (uleb_loop fuel buf v) fuel
unfolding uleb_loop
uleb_loop-Appends zero buf v pos h = absurd (omega arith)
uleb_loop-Appends (suc fuel) buf v pos h = elim (Bool-cases (v / 2 ^ 7 == 0)) [
  | inl last ↦ rw last (uleb_last fuel buf v (omega (arith, (==_iff _ _).0 last)))
  | inr more ↦
      let big : v / 2 ^ 7 ≢ 0 = λ e. cc ((==_iff _ _).1 e, more) in
      let fits : v / 2 ^ 7 < 128 ^ fuel = omega (arith, pow-suc 128 fuel) in
      rw more (
        uleb_more fuel buf v _ (
          uleb_loop-Appends fuel (push buf (bit_or (bit_and v 0x7F) 0x80)) (v / 2 ^ 7)
            (some_fuel fuel (v / 2 ^ 7) big fits) fits))
]

-- Every uint64_t is written as at most 10 bytes behind the buffer, and the decoder of the standard
-- reads it back from them whatever follows, and stops right behind them.
pub uleb128-Appends :
    (buf : Bytes) (v : ℕ) → v < 2 ^ 64 → Appends ℕ decode_uleb buf v (uleb128 buf v) 10
unfolding uleb128
uleb128-Appends buf v h = uleb_loop-Appends 10 buf v (omega arith) (omega arith)
