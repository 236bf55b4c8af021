-- ===== src/Dwarf/Abbrev/Reader.antt =====
-- A reader of abbreviation tables, after the DWARF standard.
use vscode_delphi_extension.Base.{
  ℕ, zero, suc, ◌+◌, ◌≤◌, ◌<◌, ◌^◌, ◌%◌, ◌≡◌, refl, ◌∙◌, ap, false, ◌&&◌, Option, none, some, List,
  [], ◌∷◌, ◌++◌, append_assoc, ◌==◌, if◌then◌else◌, ◌>>=◌, Bytes, All, arith, length,
}
use vscode_delphi_extension.Dwarf.BytesBuf.{u8, uleb128}
use vscode_delphi_extension.Dwarf.BytesBuf.Appends.{decode_le}
use vscode_delphi_extension.Dwarf.BytesBuf.Uleb.{decode_uleb, uleb128-Appends}
use vscode_delphi_extension.Dwarf.Abbrev.{
  AbbrevCodes, Abbrev, write_attributes, write_abbrev, write_abbrevs, abbrevs, write_abbrev_table,
}

-- Pairs up to the pair of zeros; one round for each unit of fuel.
unfoldable pub read_attributes : ℕ → Bytes → Option (List (ℕ × ℕ) × Bytes)
read_attributes zero bytes = none
read_attributes (suc fuel) bytes = do
  (name, bytes1) ← decode_uleb bytes
  (form, bytes2) ← decode_uleb bytes1
  (if name == 0 && form == 0
      then some ([], bytes2)
      else (do (pairs, rest) ← read_attributes fuel bytes2; some ((name, form) ∷ pairs, rest)))

-- Abbreviations up to the code 0.
unfoldable pub read_abbrevs : ℕ → Bytes → Option (List Abbrev × Bytes)
unfolding read_attributes
read_abbrevs zero bytes = none
read_abbrevs (suc fuel) bytes = do
  (code, bytes1) ← decode_uleb bytes
  (if code == 0 then some ([], bytes1) else (do
    (tag, bytes2) ← decode_uleb bytes1
    (children, bytes3) ← decode_le 1 bytes2
    (attributes, bytes4) ← read_attributes fuel bytes3
    (later, rest) ← read_abbrevs fuel bytes4
    some (
      (record { code = code; tag = tag; children = children; attributes = attributes }) ∷ later,
      rest,
    )))

-- Words of 64 bits, no zero where the reader takes it for an end, and a flag of one byte.
abbrev pub IsAttribute : ℕ × ℕ → Type 0
IsAttribute (name, form) = (0 < name) × (name < 2 ^ 64) × (form < 2 ^ 64)

pub record IsAbbrev (a : Abbrev) : Type 0 where
  pub code_fits : (0 < a.code) × (a.code < 2 ^ 64)
  pub tag_fits : a.tag < 2 ^ 64
  pub children_fits : a.children < 256
  pub attributes_fit : All IsAttribute a.attributes

-- A decoder reads `v` off what `out` adds to `buf`, with more fuel than `need`.
pub record Reads {ℓ} (A : Type ℓ) (decode : ℕ → Bytes → Option (A × Bytes)) (buf : Bytes) (v : A)
    (out : Bytes) (need : ℕ) : Type ℓ where
  pub added : Bytes
  pub appended : out ≡ buf ++ added
  pub decodes :
      (fuel : ℕ) (rest : Bytes) → need < fuel → decode fuel (added ++ rest) ≡ some (v, rest)

-- What holds after one round, for whatever fuel is left, holds with enough fuel.
after_round {ℓ} :
    (P : ℕ → Type ℓ) {need : ℕ}
    → ((left : ℕ) → need ≤ left → P (suc left))
    → (fuel : ℕ) → need < fuel
    → P fuel
after_round P round zero enough = absurd (omega arith)
after_round P round (suc left) enough = round left (omega arith)

write_attributes-Reads :
    (buf : Bytes) (pairs : List (ℕ × ℕ))
    → All IsAttribute pairs
    → Reads (List (ℕ × ℕ)) read_attributes buf pairs (write_attributes buf pairs) (length pairs)
unfolding write_attributes read_attributes
write_attributes-Reads buf [] h =
    let a = uleb128-Appends buf 0 (omega arith) in
    let b = uleb128-Appends (uleb128 buf 0) 0 (omega arith) in
    record {
      added = a.added ++ b.added;
      appended =
          b.appended
          ∙ ap (λ (x : Bytes). x ++ b.added) a.appended
          ∙ append_assoc buf a.added b.added;
      decodes = λ fuel rest.
          after_round (λ f. read_attributes f ((a.added ++ b.added) ++ rest) ≡ some ([], rest))
            (λ f lt.
              rw (append_assoc a.added b.added rest)
                (rw (a.decodes (b.added ++ rest), b.decodes rest, read_attributes) refl))
            fuel;
    }
write_attributes-Reads buf ((name, form) ∷ pairs) ((some_name, hn, hf), h) =
    let a = uleb128-Appends buf name hn in
    let b = uleb128-Appends (uleb128 buf name) form hf in
    let r = write_attributes-Reads (uleb128 (uleb128 buf name) form) pairs h in
    record {
      added = a.added ++ (b.added ++ r.added);
      appended =
          r.appended
          ∙ ap (λ (x : Bytes). x ++ r.added)
              (b.appended ∙ ap (λ (x : Bytes). x ++ b.added) a.appended)
          ∙ simp append_assoc;
      decodes = λ fuel rest.
          after_round
            (λ f.
              read_attributes f ((a.added ++ (b.added ++ r.added)) ++ rest)
              ≡ some ((name, form) ∷ pairs, rest))
            (λ f lt.
              let flat : (a.added ++ (b.added ++ r.added)) ++ rest
                  ≡ a.added ++ (b.added ++ (r.added ++ rest)) =
                simp append_assoc in
              let some_attribute : (name == 0) ≡ false = ground arith in
              rw flat (
                rw
                  (
                    a.decodes (b.added ++ (r.added ++ rest)),
                    b.decodes (r.added ++ rest),
                    read_attributes,
                  )
                  (rw (some_attribute, r.decodes f rest (omega arith)) refl)))
            fuel;
    }

byte-Reads :
    (buf : Bytes) (v : ℕ) (rest : Bytes) → v < 256 → decode_le 1 ((v % 256) ∷ rest) ≡ some (v, rest)
unfolding decode_le
byte-Reads buf v rest h = ground arith

-- The fuel that a table takes.
abbrev pub need : List Abbrev → ℕ
need [] = 0
need (a ∷ later) = 1 + length a.attributes + need later

write_abbrevs-Reads :
    (buf : Bytes) (abbrs : List Abbrev)
    → All IsAbbrev abbrs
    → Reads (List Abbrev) read_abbrevs buf abbrs (write_abbrevs buf abbrs) (need abbrs)
unfolding write_abbrevs read_abbrevs
write_abbrevs-Reads buf [] h =
    let a = uleb128-Appends buf 0 (omega arith) in
    record {
      added = a.added;
      appended = a.appended;
      decodes = λ fuel rest.
          after_round (λ f. read_abbrevs f (a.added ++ rest) ≡ some ([], rest))
            (λ f lt. rw (a.decodes rest, read_abbrevs) refl) fuel;
    }
write_abbrevs-Reads buf (x ∷ later) (hx, h) =
    let a = uleb128-Appends buf x.code hx.code_fits.1 in
    let b = uleb128-Appends (uleb128 buf x.code) x.tag hx.tag_fits in
    let front = u8 (uleb128 (uleb128 buf x.code) x.tag) x.children in
    let r = write_attributes-Reads front x.attributes hx.attributes_fit in
    let l = write_abbrevs-Reads (write_attributes front x.attributes) later h in
    let flag = (x.children % 256) ∷ [] in
    record {
      added = a.added ++ (b.added ++ (flag ++ (r.added ++ l.added)));
      appended =
          unfold write_abbrev in
          (l.appended
            ∙ ap (λ (y : Bytes). y ++ l.added)
                (r.appended
                  ∙ ap (λ (y : Bytes). (y ++ flag) ++ r.added)
                      (b.appended ∙ ap (λ (y : Bytes). y ++ b.added) a.appended))
            ∙ simp append_assoc);
      decodes = λ fuel rest.
          after_round
            (λ f.
              read_abbrevs f ((a.added ++ (b.added ++ (flag ++ (r.added ++ l.added)))) ++ rest)
              ≡ some (x ∷ later, rest))
            (λ f lt.
              let behind = r.added ++ (l.added ++ rest) in
              let flat : (a.added ++ (b.added ++ (flag ++ (r.added ++ l.added)))) ++ rest
                  ≡ a.added ++ (b.added ++ ((x.children % 256) ∷ behind)) =
                simp append_assoc in
              let some_code : (x.code == 0) ≡ false = ground (arith, hx.code_fits) in
              rw flat (
                rw
                  (
                    a.decodes (b.added ++ ((x.children % 256) ∷ behind)),
                    b.decodes ((x.children % 256) ∷ behind),
                    read_abbrevs,
                  )
                  (rw
                    (
                      some_code,
                      byte-Reads buf x.children behind hx.children_fits,
                      r.decodes f (l.added ++ rest) (omega arith),
                      l.decodes f rest (omega arith),
                    )
                    refl)))
            fuel;
    }

-- The codes of DWARF are words, attributes are not zero, and the children flags are bytes.
pub record AreAbbrevCodes (c : AbbrevCodes) : Type 0 where
  pub tags :
      All
        (λ t. t < 2 ^ 64)
        (c.tag_compile_unit ∷ c.tag_subprogram ∷ c.tag_variable ∷ c.tag_base_type ∷ c.tag_array_type
          ∷ c.tag_subrange_type ∷ c.tag_formal_parameter ∷ [])
  pub attributes :
      All
        (λ a. (0 < a) × (a < 2 ^ 64))
        (c.at_producer ∷ c.at_language ∷ c.at_name ∷ c.at_comp_dir ∷ c.at_low_pc ∷ c.at_high_pc
          ∷ c.at_stmt_list ∷ c.at_external ∷ c.at_location ∷ c.at_type ∷ c.at_byte_size
          ∷ c.at_encoding ∷ c.at_upper_bound ∷ c.at_frame_base ∷ [])
  pub forms :
      All
        (λ f. f < 2 ^ 64)
        (c.form_string ∷ c.form_data1 ∷ c.form_data2 ∷ c.form_addr ∷ c.form_sec_offset ∷ c.form_flag
          ∷ c.form_exprloc ∷ c.form_ref_addr ∷ c.form_udata ∷ [])
  pub children : (c.children_no < 256) × (c.children_yes < 256)

abbrevs-IsAbbrev : (c : AbbrevCodes) → AreAbbrevCodes c → All IsAbbrev (abbrevs c)
unfolding abbrevs
abbrevs-IsAbbrev c h = omega (arith, h.tags, h.attributes, h.forms, h.children)

-- The table that is written reads back, with whatever follows it, as the ten abbreviations with
-- their tags, children flags, attributes and forms, and the reader stops right behind it.
pub write_abbrev_table-Reads :
    (c : AbbrevCodes) (buf : Bytes)
    → AreAbbrevCodes c
    → Reads (List Abbrev) read_abbrevs buf (abbrevs c) (write_abbrev_table c buf) 44
unfolding write_abbrev_table
write_abbrev_table-Reads c buf h =
    let r = write_abbrevs-Reads buf (abbrevs c) (abbrevs-IsAbbrev c h) in
    record {
      added = r.added;
      appended = r.appended;
      decodes = λ fuel rest lt. r.decodes fuel rest (unfold abbrevs in lt);
    }
