-- ===== src/Dwarf/Reader/Forms.antt =====
-- Each form reads back what the writer appends for it.
use vscode_delphi_extension.Base.{
  ℕ, zero, suc, ◌-◌, ◌^◌, ◌%◌, ◌≤◌, ◌<◌, ◌≡◌, ◌≢◌, refl, ap, sym, ◌∙◌, Bool, Option, some, List, [],
  ◌∷◌, ◌++◌, append_assoc, append-nil, All, ◌==◌, ℤ, pos, negsuc, ◌≤ℤ◌, Bytes, length, arith,
  Bool-cases, inl, inr, bit_and, bit_or, not, ◌&&◌, ◌||◌, eqb_ℤ,
}
use vscode_delphi_extension.Dwarf.BytesBuf.{
  push, u8, u16, u32, u64, uleb128, sleb128, sleb_loop, cstr, low_group, shift_right_7,
}
use vscode_delphi_extension.Dwarf.BytesBuf.Appends.{
  decode_le, u16-Appends, u32-Appends, u64-Appends,
}
use vscode_delphi_extension.Dwarf.BytesBuf.Uleb.{decode_uleb, uleb128-Appends}
use vscode_delphi_extension.Dwarf.BytesBuf.Sleb.{decode_sleb, sleb128-Appends}
use vscode_delphi_extension.Dwarf.Abbrev.{AbbrevCodes}
use vscode_delphi_extension.Dwarf.Info.{InfoCodes}
use vscode_delphi_extension.Dwarf.Info.Symbols.{sleb_bytes, sleb128_bytes}
use vscode_delphi_extension.Dwarf.Reader.{Value, number, text, read_text, read_number, read_form}
use vscode_delphi_extension.Dwarf.Reader.Writes.{Writes, Appends-Writes}

abbrev pub Distinct : List ℕ → Type 0
Distinct [] = Unit
Distinct (x ∷ xs) = All (λ y. x ≢ y) xs × Distinct xs

-- What the codes of DWARF must be like for the reader to tell them apart.
pub record AreInfoCodes (ac : AbbrevCodes) (c : InfoCodes) : Type 0 where
  pub forms : Distinct (
      ac.form_string ∷ ac.form_exprloc ∷ ac.form_udata ∷ ac.form_data1 ∷ ac.form_flag
      ∷ ac.form_data2 ∷ ac.form_sec_offset ∷ ac.form_ref_addr ∷ ac.form_addr ∷ [])
  pub operations : Distinct (c.op_addr ∷ c.op_breg6 ∷ c.op_fbreg ∷ [])
  pub operations_fit : All (λ b. b < 256) (c.op_addr ∷ c.op_breg6 ∷ c.op_fbreg ∷ [])
  pub encodings_fit :
      All
        (λ b. b < 256)
        (c.ate_address ∷ c.ate_boolean ∷ c.ate_float ∷ c.ate_signed ∷ c.ate_unsigned
          ∷ c.ate_unsigned_char ∷ c.ate_utf ∷ [])
  pub unit_fits : (c.ut_compile < 256) × (c.lang_pascal83 < 2 ^ 16)
  pub children_differ : ac.children_no ≢ ac.children_yes

-- A text of the program: its bytes, none of them zero.
abbrev pub IsText : Bytes → Type 0
IsText s = All (λ b. 0 < b) s

read_text-append : (s rest : Bytes) → IsText s → read_text (s ++ 0 ∷ rest) ≡ some (s, rest)
unfolding read_text
read_text-append [] rest h = refl
read_text-append (b ∷ s) rest (hb, h) = ground (arith, read_text-append s rest h)

module _ (ac : AbbrevCodes) (c : InfoCodes) (are : AreInfoCodes ac c) where
  pub text-Writes :
      (buf s : Bytes)
      → IsText s
      → Writes Value (read_form ac c ac.form_string) buf (text s) (cstr buf s)
  unfolding read_form
  text-Writes buf s h = record {
    added = s ++ 0 ∷ [];
    appended = append_assoc buf s (0 ∷ []);
    decodes = λ rest. ground (arith, append_assoc s (0 ∷ []) rest, read_text-append s rest h);
  }

  -- The forms of numbers.
  number-Writes :
      (form : ℕ) (decode : Bytes → Option (ℕ × Bytes)) (buf : Bytes) (v : ℕ) (out : Bytes)
      → ((bytes : Bytes) → read_form ac c form bytes ≡ read_number (decode bytes))
      → Writes ℕ decode buf v out
      → Writes Value (read_form ac c form) buf (number v) out
  unfolding read_number
  number-Writes form decode buf v out reads w = record {
    added = w.added;
    appended = w.appended;
    decodes = λ rest. reads (w.added ++ rest) ∙ ap read_number (w.decodes rest);
  }

  u8-Writes : (buf : Bytes) (v : ℕ) → v < 256 → Writes ℕ (decode_le 1) buf v (u8 buf v)
  unfolding decode_le
  u8-Writes buf v h = record {
    added = v % 256 ∷ [];
    appended = refl;
    decodes = λ rest. ground arith;
  }

  pub data1-Writes :
      (buf : Bytes) (v : ℕ)
      → v < 256
      → Writes Value (read_form ac c ac.form_data1) buf (number v) (u8 buf v)
  unfolding read_form
  data1-Writes buf v h =
      let forms = are.forms in
      number-Writes ac.form_data1 (decode_le 1) buf v (u8 buf v) (λ bytes. ground arith)
        (u8-Writes buf v h)

  pub flag-Writes :
      (buf : Bytes) (v : ℕ)
      → v < 256
      → Writes Value (read_form ac c ac.form_flag) buf (number v) (u8 buf v)
  unfolding read_form
  flag-Writes buf v h =
      let forms = are.forms in
      number-Writes ac.form_flag (decode_le 1) buf v (u8 buf v) (λ bytes. ground arith)
        (u8-Writes buf v h)

  pub data2-Writes :
      (buf : Bytes) (v : ℕ)
      → v < 2 ^ 16
      → Writes Value (read_form ac c ac.form_data2) buf (number v) (u16 buf v)
  unfolding read_form
  data2-Writes buf v h =
      let forms = are.forms in
      number-Writes ac.form_data2 (decode_le 2) buf v (u16 buf v) (λ bytes. ground arith)
        (Appends-Writes (u16-Appends buf v h))

  pub sec_offset-Writes :
      (buf : Bytes) (v : ℕ)
      → v < 2 ^ 32
      → Writes Value (read_form ac c ac.form_sec_offset) buf (number v) (u32 buf v)
  unfolding read_form
  sec_offset-Writes buf v h =
      let forms = are.forms in
      number-Writes ac.form_sec_offset (decode_le 4) buf v (u32 buf v) (λ bytes. ground arith)
        (Appends-Writes (u32-Appends buf v h))

  pub ref_addr-Writes :
      (buf : Bytes) (v : ℕ)
      → v < 2 ^ 32
      → Writes Value (read_form ac c ac.form_ref_addr) buf (number v) (u32 buf v)
  unfolding read_form
  ref_addr-Writes buf v h =
      let forms = are.forms in
      number-Writes ac.form_ref_addr (decode_le 4) buf v (u32 buf v) (λ bytes. ground arith)
        (Appends-Writes (u32-Appends buf v h))

  pub addr-Writes :
      (buf : Bytes) (v : ℕ)
      → v < 2 ^ 64
      → Writes Value (read_form ac c ac.form_addr) buf (number v) (u64 buf v)
  unfolding read_form
  addr-Writes buf v h =
      let forms = are.forms in
      number-Writes ac.form_addr (decode_le 8) buf v (u64 buf v) (λ bytes. ground arith)
        (Appends-Writes (u64-Appends buf v h))

  pub udata-Writes :
      (buf : Bytes) (v : ℕ)
      → v < 2 ^ 64
      → Writes Value (read_form ac c ac.form_udata) buf (number v) (uleb128 buf v)
  unfolding read_form
  udata-Writes buf v h =
      let forms = are.forms in
      number-Writes ac.form_udata decode_uleb buf v (uleb128 buf v) (λ bytes. ground arith)
        (Appends-Writes (uleb128-Appends buf v h))

-- The test that ends both loops.
abbrev is_last : ℤ → Bool
is_last v =
    let sign = not (bit_and (low_group v) 0x40 == 0) in
    eqb_ℤ (shift_right_7 v) (pos 0) && not sign || eqb_ℤ (shift_right_7 v) (negsuc 0) && sign

-- The encoder of signed numbers that the entries use and the one of the buffer give the same bytes,
-- for each number of rounds.
pub sleb_loop-sleb_bytes :
    (fuel : ℕ) (buf : Bytes) (v : ℤ) → sleb_loop fuel buf v ≡ buf ++ sleb_bytes fuel v
unfolding sleb_loop sleb_bytes
sleb_loop-sleb_bytes zero buf v = sym (append-nil buf)
sleb_loop-sleb_bytes (suc fuel) buf v = elim (Bool-cases (is_last v)) [
  | inl last ↦ rw last refl
  | inr more ↦ rw more (
      sleb_loop-sleb_bytes fuel (push buf (bit_or (low_group v) 0x80)) (shift_right_7 v)
      ∙ append_assoc buf (bit_or (low_group v) 0x80 ∷ []) (sleb_bytes fuel (shift_right_7 v)))
]

-- A stack offset of 64 bits.
abbrev pub IsI64 : ℤ → Type 0
IsI64 v = (negsuc (2 ^ 63 - 1) ≤ℤ v) × (v ≤ℤ pos (2 ^ 63 - 1))

pub decode-sleb128_bytes :
    (v : ℤ) (rest : Bytes) → IsI64 v → decode_sleb (sleb128_bytes v ++ rest) ≡ some (v, rest)
unfolding sleb128_bytes
decode-sleb128_bytes v rest (lo, hi) =
    let a = sleb128-Appends [] v lo hi in
    let e : a.added ≡ sleb_bytes 10 v =
      sym a.appended ∙ unfold sleb128 in sleb_loop-sleb_bytes 10 [] v in
    rw (sym e) (a.decodes rest)

pub sleb128_bytes-short : (v : ℤ) → IsI64 v → length (sleb128_bytes v) ≤ 10
unfolding sleb128_bytes
sleb128_bytes-short v (lo, hi) =
    let a = sleb128-Appends [] v lo hi in
    let e : a.added ≡ sleb_bytes 10 v =
      sym a.appended ∙ unfold sleb128 in sleb_loop-sleb_bytes 10 [] v in
    rw (sym e) a.size
