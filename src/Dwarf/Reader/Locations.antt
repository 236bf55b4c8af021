-- ===== src/Dwarf/Reader/Locations.antt =====
-- Each location reads back what the writer appends for it.
use vscode_delphi_extension.Base.{
  ℕ, ◌+◌, ◌^◌, ◌%◌, ◌<◌, ◌≡◌, refl, ap, sym, ◌∙◌, false, some, [], ◌∷◌, ◌++◌, append_assoc,
  append-nil, ltb, ℤ, Bytes, length, length-append, arith, drop-append, take-append,
}
use vscode_delphi_extension.Dwarf.BytesBuf.{u8, u64, uleb128}
use vscode_delphi_extension.Dwarf.BytesBuf.Appends.{decode_le, u64-Appends}
use vscode_delphi_extension.Dwarf.BytesBuf.Uleb.{decode_uleb, uleb128-Appends}
use vscode_delphi_extension.Dwarf.BytesBuf.Sleb.{decode_sleb}
use vscode_delphi_extension.Dwarf.Abbrev.{AbbrevCodes}
use vscode_delphi_extension.Dwarf.Info.{InfoCodes}
use vscode_delphi_extension.Dwarf.Info.Symbols.{sleb128_bytes, emit_offset_location}
use vscode_delphi_extension.Dwarf.Reader.{
  Place, frame_base, frame_slot, fixed, Value, location, read_place, read_location, read_form,
}
use vscode_delphi_extension.Dwarf.Reader.Writes.{
  Writes, Appends-Writes, Writes-whole, appended_both,
}
use vscode_delphi_extension.Dwarf.Reader.Forms.{
  AreInfoCodes, IsI64, decode-sleb128_bytes, sleb128_bytes-short,
}

module _ (ac : AbbrevCodes) (c : InfoCodes) (are : AreInfoCodes ac c) where
  -- A block of one operation behind its length.
  location-Writes :
      (buf mid block : Bytes) (p : Place)
      → read_place c block ≡ some p
      → Writes ℕ decode_uleb buf (length block) mid
      → Writes Value (read_form ac c ac.form_exprloc) buf (location p) (mid ++ block)
  unfolding read_form read_location
  location-Writes buf mid block p reads w =
      let forms = are.forms in
      record {
        added = w.added ++ block;
        appended = appended_both buf mid (mid ++ block) w.added block w.appended refl;
        decodes = λ rest.
            let fits : ltb (length (block ++ rest)) (length block) ≡ false =
              ground (arith, length-append block rest) in
            ground (
              arith,
              append_assoc w.added block rest,
              w.decodes (block ++ rest),
              fits,
              take-append block rest,
              drop-append block rest,
              reads,
            );
      }

  slot_place : (v : ℤ) → IsI64 v → read_place c (c.op_fbreg ∷ sleb128_bytes v) ≡ some (frame_slot v)
  unfolding read_place
  slot_place v h =
      let ops = are.operations in
      let e : decode_sleb (sleb128_bytes v) ≡ some (v, []) =
        ap decode_sleb (sym (append-nil (sleb128_bytes v))) ∙ decode-sleb128_bytes v [] h in
      ground (arith, e)

  base_place : (v : ℤ) → IsI64 v → read_place c (c.op_breg6 ∷ sleb128_bytes v) ≡ some (frame_base v)
  unfolding read_place
  base_place v h =
      let ops = are.operations in
      let e : decode_sleb (sleb128_bytes v) ≡ some (v, []) =
        ap decode_sleb (sym (append-nil (sleb128_bytes v))) ∙ decode-sleb128_bytes v [] h in
      ground (arith, e)

  offset_location-Writes :
      (buf : Bytes) (op : ℕ) (v : ℤ) (p : Place)
      → op < 256
      → IsI64 v
      → read_place c (op ∷ sleb128_bytes v) ≡ some p
      → Writes Value
          (read_form ac c ac.form_exprloc)
          buf
          (location p)
          (emit_offset_location buf op v)
  unfolding emit_offset_location
  offset_location-Writes buf op v p fits h reads =
      let block = op ∷ sleb128_bytes v in
      let mid = uleb128 buf (1 + length (sleb128_bytes v)) in
      let len : 1 + length (sleb128_bytes v) ≡ length block = omega arith in
      let byte : op % 256 ≡ op = omega arith in
      let out : (mid ++ (op % 256 ∷ [])) ++ sleb128_bytes v ≡ mid ++ block =
        append_assoc mid (op % 256 ∷ []) (sleb128_bytes v)
        ∙ ap (λ (o : ℕ). mid ++ (o ∷ sleb128_bytes v)) byte in
      let w = location-Writes buf (uleb128 buf (length block)) block p reads (
        Appends-Writes
          (uleb128-Appends buf (length block) (omega (arith, sleb128_bytes-short v h)))) in
      rw (out, len) w

  pub slot-Writes :
      (buf : Bytes) (v : ℤ)
      → IsI64 v
      → Writes Value
          (read_form ac c ac.form_exprloc)
          buf
          (location (frame_slot v))
          (emit_offset_location buf c.op_fbreg v)
  slot-Writes buf v h =
      let fits = are.operations_fit in
      offset_location-Writes buf c.op_fbreg v (frame_slot v) (omega arith) h (slot_place v h)

  pub base-Writes :
      (buf : Bytes) (v : ℤ)
      → IsI64 v
      → Writes Value
          (read_form ac c ac.form_exprloc)
          buf
          (location (frame_base v))
          (emit_offset_location buf c.op_breg6 v)
  base-Writes buf v h =
      let fits = are.operations_fit in
      offset_location-Writes buf c.op_breg6 v (frame_base v) (omega arith) h (base_place v h)

  fixed_place : (v : ℕ) → v < 2 ^ 64 → read_place c (c.op_addr ∷ u64 [] v) ≡ some (fixed v)
  unfolding read_place
  fixed_place v h =
      let e : decode_le 8 (u64 [] v) ≡ some (v, []) =
        Writes-whole (Appends-Writes (u64-Appends [] v h)) in
      ground (arith, e)

  pub fixed-Writes :
      (buf : Bytes) (v : ℕ)
      → v < 2 ^ 64
      → Writes Value
          (read_form ac c ac.form_exprloc)
          buf
          (location (fixed v))
          (u64 (u8 (uleb128 buf (1 + 8)) c.op_addr) v)
  fixed-Writes buf v h =
      let fits = are.operations_fit in
      let block = c.op_addr ∷ u64 [] v in
      let mid = uleb128 buf 9 in
      let byte : c.op_addr % 256 ≡ c.op_addr = omega arith in
      let out : u64 (mid ++ (c.op_addr % 256 ∷ [])) v ≡ mid ++ block =
        rw byte (simp append_assoc) in
      let w =
        location-Writes buf mid block (fixed v) (fixed_place v h)
          (Appends-Writes (uleb128-Appends buf 9 (omega arith))) in
      rw out w
