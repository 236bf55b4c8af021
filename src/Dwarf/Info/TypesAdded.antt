-- ===== src/Dwarf/Info/TypesAdded.antt =====
-- A type that is added behind the others keeps what holds of the section and the offsets.
use vscode_delphi_extension.Base.{
  ℕ, suc, ◌%◌, ◌^◌, ◌<◌, ◌≡◌, refl, ap, sym, subst, ◌∙◌, List, [], ◌∷◌, ◌++◌, append_assoc,
  append-nil, Option, none, some, ◌==◌, Bytes, length, length-append, find, assign, find-assign,
  nat_eq, arith, Bool-cases, ==_iff, Option-cases, ◌⊎◌, inl, inr,
}
use vscode_delphi_extension.Model.{
  TypeId, TypeKind, primitive_type, pointer_type, array_type, record_type, enum_type, get_type,
  Module,
}
use vscode_delphi_extension.Dwarf.Abbrev.{AbbrevCodes}
use vscode_delphi_extension.Dwarf.Info.{InfoCodes}
use vscode_delphi_extension.Dwarf.Info.Types.{TypeState, offset_in, offset_of}
use vscode_delphi_extension.Dwarf.Reader.{Entry}
use vscode_delphi_extension.Dwarf.Reader.Forms.{AreInfoCodes}
use vscode_delphi_extension.Dwarf.Reader.Entries.{Entries, Entries-append, Leads, Leads-append}
use vscode_delphi_extension.Dwarf.Info.TypesWritten.{
  has_entry, IsElement, IsElementAt, DescribesAs, Describes, Listed, Entries-Shown, TypesShown,
}
use vscode_delphi_extension.Dwarf.Info.TypesFound.{IsFound, no_type-none}

find-kept :
    (k v : ℕ) (m : List (ℕ × ℕ)) (j w : ℕ)
    → find k m ≡ none
    → find j m ≡ some w
    → find j (assign k v m) ≡ some w
find-kept k v m j w fresh found = find-assign j k v m ∙ elim (Bool-cases (k == j)) [
  | inl e ↦ absurd (cc (subst (λ x. find x m ≡ none) ((==_iff k j).0 e) fresh, found))
  | inr e ↦ rw e found
]

module _ (ac : AbbrevCodes) (c : InfoCodes) (are : AreInfoCodes ac c) where
  module _ (mod_ : Module) (buf : Bytes) where
    DescribesAs-kept :
        (k v : ℕ) (m : List (ℕ × ℕ)) (tid : TypeId) (o : Option TypeKind) (es : List Entry)
        → find k m ≡ none
        → DescribesAs ac c are mod_ m tid o es
        → DescribesAs ac c are mod_ (assign k v m) tid o es
    DescribesAs-kept k v m tid none es fresh h = h
    DescribesAs-kept k v m tid (some (primitive_type p)) es fresh h = h
    DescribesAs-kept k v m tid (some (array_type element len)) es fresh (at, e, inl found) =
        (at, e, inl (find-kept k v m element at fresh found))
    DescribesAs-kept k v m tid (some (array_type element len)) es fresh (at, e, inr excused) =
        (at, e, inr excused)
    DescribesAs-kept k v m tid (some (pointer_type t)) es fresh h = h
    DescribesAs-kept k v m tid (some (record_type n size fields)) es fresh h = h
    DescribesAs-kept k v m tid (some (enum_type n t values)) es fresh h = h

    -- A type that is assigned behind the others is listed behind them.
    Listed-added :
        (tid v : ℕ) (offsets : List (TypeId × ℕ)) (some_ : List (TypeId × ℕ)) (es new : List Entry)
        → find tid offsets ≡ none
        → find tid some_ ≡ none
        → Listed ac c are mod_ offsets some_ es
        → Describes ac c are mod_ (assign tid v offsets) tid new
        → Listed ac c are mod_ (assign tid v offsets) (assign tid v some_) (es ++ new)
    unfolding find assign
    Listed-added tid v offsets [] es new fresh absent e described =
        (new, [], ap (λ (x : List Entry). x ++ new) e ∙ sym (append-nil new), described, refl)
    Listed-added tid v offsets ((j, off) ∷ more) es new fresh absent (first, rest, e, d, l)
          described =
        elim (Bool-cases (j == tid)) [
          | inl same ↦ absurd (ground (arith, same, absent))
          | inr other ↦ rw other (
            first,
            rest ++ new,
            ap (λ (x : List Entry). x ++ new) e ∙ append_assoc first rest new,
            DescribesAs-kept tid v offsets j (get_type mod_ j) first fresh d,
            Listed-added tid v offsets more rest new fresh (rw other at absent) l described,
          )
        ]

    abbrev IsKept : TypeState → Type 0
    IsKept s = TypesShown ac c are mod_ buf s

    -- A type that is written behind the others.
    pub add-TypesShown :
        (s : TypeState) (tid : TypeId) (es : List Entry) (out : Bytes)
        → IsKept s
        → find tid s.type_offsets ≡ none
        → Entries ac c s.info es out
        → ((d : ℕ) → Leads ac c (suc d) es (suc d))
        → Describes ac c are mod_ (assign tid (offset_in s.info) s.type_offsets) tid es
        → IsKept
            (record { info = out; type_offsets = assign tid (offset_in s.info) s.type_offsets })
    add-TypesShown s tid es out t fresh ws level describes =
        let before = Entries-Shown ac c are buf s.info t.entries t.wrote in
        let now = Entries-Shown ac c are s.info out es ws in
        let offsets = assign tid (offset_in s.info) s.type_offsets in
        record {
          entries = t.entries ++ es;
          wrote = Entries-append ac c buf s.info out t.entries es t.wrote ws;
          listed =
              Listed-added tid (offset_in s.info) s.type_offsets s.type_offsets t.entries es fresh
                fresh t.listed describes;
          level = λ d. Leads-append ac c (suc d) (suc d) (suc d) t.entries es (t.level d) (level d);
          shows = λ j off found. elim (Bool-cases (tid == j)) [
            | inl e ↦
                let stored : find j offsets ≡ some (offset_in s.info) =
                  find-assign j tid (offset_in s.info) s.type_offsets ∙ rw e refl in
                let off_is : off ≡ offset_in s.info = cc (found, stored) in
                record {
                  front = before.shown;
                  shown = now.shown;
                  back = [];
                  entries = es;
                  split =
                      now.extends
                      ∙ ap (λ (x : Bytes). x ++ now.shown) before.extends
                      ∙ append_assoc buf before.shown now.shown
                      ∙ ap (λ (x : Bytes). buf ++ (before.shown ++ x)) (sym (append-nil now.shown));
                  place =
                      off_is
                      ∙ ap (λ (x : Bytes). length x % 2 ^ 32) before.extends
                      ∙ ap (λ (n : ℕ). n % 2 ^ 32) (length-append buf before.shown);
                  reads = now.reads;
                  describes =
                      subst (λ x. Describes ac c are mod_ offsets x es) ((==_iff tid j).0 e)
                        describes;
                }
            | inr e ↦
                let kept : find j offsets ≡ find j s.type_offsets =
                  find-assign j tid (offset_in s.info) s.type_offsets ∙ rw e refl in
                let old = t.shows j off (sym kept ∙ found) in
                record {
                  front = old.front;
                  shown = old.shown;
                  back = old.back ++ now.shown;
                  entries = old.entries;
                  split =
                      now.extends
                      ∙ ap (λ (x : Bytes). x ++ now.shown) old.split
                      ∙ simp append_assoc;
                  place = old.place;
                  reads = old.reads;
                  describes =
                      DescribesAs-kept tid (offset_in s.info) s.type_offsets j (get_type mod_ j)
                        old.entries fresh old.describes;
                }
          ];
        }

    pub offset_of-lt :
        (s : TypeState) → IsKept s → (tid : TypeId) → offset_of s.type_offsets tid < 2 ^ 32
    offset_of-lt s t tid = elim (Bool-cases (tid == 0)) [
      | inl zero_id ↦ rw zero_id (omega arith)
      | inr some_id ↦ rw some_id (elim (Option-cases (find tid s.type_offsets)) [
        | inl e ↦ rw e (omega arith)
        | inr (off, e) ↦ rw e (let place = (t.shows tid off e).place in omega arith)
      ])
    ]

    -- What an array that is not yet recorded is given for its element.
    pub element_at :
        (tid element v : ℕ) (s : TypeState)
        → find tid s.type_offsets ≡ none
        → IsFound mod_ s.type_offsets element ⊎ IsElement mod_ tid
        → IsElementAt mod_
            (assign tid v s.type_offsets)
            tid
            element
            (offset_of s.type_offsets element)
    element_at tid element v s fresh ready = elim (Bool-cases (element == 0)) [
      | inl zero_id ↦
          rw zero_id (inr (refl, inl (ap has_entry (no_type-none c mod_ element zero_id))))
      | inr some_id ↦ rw some_id (elim (Option-cases (find element s.type_offsets)) [
        | inl e ↦ rw e (
            inr (
              refl,
              elim ready [
                | inr outer ↦ inr outer
                | inl found ↦ elim (Bool-cases (has_entry (get_type mod_ element))) [
                  | inl entry ↦ absurd (found entry e)
                  | inr alone ↦ inl alone
                ]
              ],
            ))
        | inr (off, e) ↦ rw e (inl (find-kept tid v s.type_offsets element off fresh e))
      ])
    ]
