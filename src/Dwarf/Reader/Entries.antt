-- ===== src/Dwarf/Reader/Entries.antt =====
-- Entries and lists of entries that read back.
use vscode_delphi_extension.Base.{
  ℕ, zero, suc, ◌^◌, ◌<◌, ◌≡◌, refl, sym, ◌∙◌, some, List, [], ◌∷◌, ◌++◌, append_assoc, append-nil,
  Bytes, length, arith,
}
use vscode_delphi_extension.Dwarf.BytesBuf.{u8, uleb128}
use vscode_delphi_extension.Dwarf.BytesBuf.Uleb.{decode_uleb, uleb128-Appends}
use vscode_delphi_extension.Dwarf.Abbrev.{AbbrevCodes, Abbrev, abbrevs}
use vscode_delphi_extension.Dwarf.Info.{InfoCodes}
use vscode_delphi_extension.Dwarf.Reader.{
  Value, Entry, end_of_children, die, read_form, read_attributes, find_abbrev, read_entry,
  depth_behind, read_unit,
}
use vscode_delphi_extension.Dwarf.Reader.Writes.{Writes, appended_both}

module _ (ac : AbbrevCodes) (c : InfoCodes) where
  abbrev pub Attributes : List (ℕ × ℕ) → Bytes → List (ℕ × Value) → Bytes → Type 0
  Attributes pairs buf vs out = Writes (List (ℕ × Value)) (read_attributes ac c pairs) buf vs out

  pub nil-Attributes : (buf : Bytes) → Attributes [] buf [] buf
  unfolding read_attributes
  nil-Attributes buf = record {
    added = [];
    appended = sym (append-nil buf);
    decodes = λ rest. refl;
  }

  pub cons-Attributes :
      (name form : ℕ) (pairs : List (ℕ × ℕ)) (buf mid out : Bytes) (v : Value)
      (vs : List (ℕ × Value))
      → Writes Value (read_form ac c form) buf v mid
      → Attributes pairs mid vs out
      → Attributes ((name, form) ∷ pairs) buf ((name, v) ∷ vs) out
  unfolding read_attributes
  cons-Attributes name form pairs buf mid out v vs w ws = record {
    added = w.added ++ ws.added;
    appended = appended_both buf mid out w.added ws.added w.appended ws.appended;
    decodes = λ rest.
        ground (
          arith,
          append_assoc w.added ws.added rest,
          w.decodes (ws.added ++ rest),
          ws.decodes rest,
        );
  }

  pub die-Writes :
      (code : ℕ) (a : Abbrev) (buf out : Bytes) (vs : List (ℕ × Value))
      → (0 < code) × (code < 2 ^ 64)
      → find_abbrev code (abbrevs ac) ≡ some a
      → Attributes a.attributes (uleb128 buf code) vs out
      → Writes Entry (read_entry ac c) buf (die a.tag a.children vs) out
  unfolding read_entry
  die-Writes code a buf out vs (some_code, fits) found ws =
      let w = uleb128-Appends buf code fits in
      record {
        added = w.added ++ ws.added;
        appended = appended_both buf (uleb128 buf code) out w.added ws.added w.appended ws.appended;
        decodes = λ rest. ground (
          arith,
          append_assoc w.added ws.added rest,
          w.decodes (ws.added ++ rest),
          found,
          ws.decodes rest,
        );
      }

  pub end-Writes : (buf : Bytes) → Writes Entry (read_entry ac c) buf end_of_children (u8 buf 0)
  unfolding read_entry decode_uleb
  end-Writes buf = record { added = 0 ∷ []; appended = refl; decodes = λ rest. ground arith }

  -- The writer appends the entries one behind the other.
  abbrev pub Entries : Bytes → List Entry → Bytes → Type 0
  Entries buf [] out = out ≡ buf
  Entries buf (e ∷ es) out =
      (mid : Bytes) × Writes Entry (read_entry ac c) buf e mid × Entries mid es out

  pub Entries-append :
      (buf mid out : Bytes) (xs ys : List Entry)
      → Entries buf xs mid
      → Entries mid ys out
      → Entries buf (xs ++ ys) out
  Entries-append buf mid out [] ys e ws = rw (sym e) ws
  Entries-append buf mid out (x ∷ xs) ys (m, w, more) ws =
      (m, w, Entries-append m mid out xs ys more ws)

  -- The entries lead from one depth to another and stay below the first entry of the unit.
  abbrev pub Leads : ℕ → List Entry → ℕ → Type 0
  Leads d [] d' = d ≡ d'
  Leads d (e ∷ es) d' = (0 < depth_behind ac d e) × Leads (depth_behind ac d e) es d'

  pub Leads-append :
      (d d' d'' : ℕ) (xs ys : List Entry) → Leads d xs d' → Leads d' ys d'' → Leads d (xs ++ ys) d''
  Leads-append d d' d'' [] ys e more = rw e more
  Leads-append d d' d'' (x ∷ xs) ys (pos, rest) more =
      (pos, Leads-append (depth_behind ac d x) d' d'' xs ys rest more)

  -- Entries that lead to depth 1, with the end of the unit behind them, are read as the unit.
  pub read_unit-Entries :
      (fuel d : ℕ) (es : List Entry) (buf out : Bytes)
      → length es < fuel
      → Leads d es 1
      → Entries buf (es ++ end_of_children ∷ []) out
      → Writes (List Entry) (read_unit fuel ac c d) buf (es ++ end_of_children ∷ []) out
  unfolding read_unit depth_behind
  read_unit-Entries zero d es buf out enough leads ws = absurd (omega arith)
  read_unit-Entries (suc fuel) d [] buf out enough leads (mid, w, e) = record {
    added = w.added;
    appended = e ∙ w.appended;
    decodes = λ rest. ground (arith, w.decodes rest);
  }
  read_unit-Entries (suc fuel) d (x ∷ es) buf out enough (pos, leads) (mid, w, ws) =
      let r = read_unit-Entries fuel (depth_behind ac d x) es mid out (omega arith) leads ws in
      record {
        added = w.added ++ r.added;
        appended = appended_both buf mid out w.added r.added w.appended r.appended;
        decodes = λ rest.
            ground (
              arith,
              append_assoc w.added r.added rest,
              w.decodes (r.added ++ rest),
              r.decodes rest,
            );
      }
