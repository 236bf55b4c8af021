-- ===== src/Dwarf/Info/TypesWritten.antt =====
-- The types of a unit are written as entries, and each recorded offset is where its entry begins.
use vscode_delphi_extension.Base.{
  ℕ, Bool, true, false, zero, suc, ◌+◌, ◌-◌, ◌%◌, ◌^◌, ◌≤◌, ◌<◌, ◌≡◌, ◌≢◌, refl, sym, ◌∙◌, List, [],
  ◌∷◌, ◌++◌, append_assoc, append-nil, Option, none, some, Bytes, length, get_elem?, find, nat_eq,
  arith, ◌⊎◌,
}
use vscode_delphi_extension.Model.{
  PrimitiveKind, bool, char, wchar, int8, int16, int32, int64, uint8, uint16, uint32, uint64,
  float32, float64, float80, pchar, pwchar, TypeId, TypeKind, primitive_type, pointer_type,
  array_type, record_type, enum_type, get_type, Module,
}
use vscode_delphi_extension.Dwarf.Abbrev.{AbbrevCodes, abbrevs}
use vscode_delphi_extension.Dwarf.Info.{InfoCodes, PrimitiveDescriptor, describe_primitive}
use vscode_delphi_extension.Dwarf.Info.Types.{TypeState, emit_base_type_die, emit_array_type_die}
use vscode_delphi_extension.Dwarf.Info.Shown.{base_type_entry, array_type_entry, subrange_entry}
use vscode_delphi_extension.Dwarf.Reader.{Entry, end_of_children, find_abbrev, read_entry}
use vscode_delphi_extension.Dwarf.Reader.Writes.{appended_both}
use vscode_delphi_extension.Dwarf.Reader.Forms.{
  AreInfoCodes, IsText, text-Writes, data1-Writes, ref_addr-Writes, udata-Writes,
}
use vscode_delphi_extension.Dwarf.Reader.Entries.{
  nil-Attributes, cons-Attributes, die-Writes, end-Writes, Entries, Leads,
}

-- An id that the module has a type for, or none.
abbrev pub IsTyped : Module → TypeId → Type 0
IsTyped mod_ tid = tid ≤ length mod_.types

-- The arrays of the module have lengths of 64 bits and elements that it has.
abbrev pub HasArrays : Module → Type 0
HasArrays mod_ =
    (tid element len : ℕ)
    → get_type mod_ tid ≡ some (array_type element len)
    → (len < 2 ^ 64) × IsTyped mod_ element

get_elem?-within : (ts : List TypeKind) (i : ℕ) → i < length ts → get_elem? ts i ≢ none
get_elem?-within [] i h = absurd (omega arith)
get_elem?-within (t ∷ ts) zero h = λ e. cc e
get_elem?-within (t ∷ ts) (suc i) h = get_elem?-within ts i (omega arith)

pub get_type-IsTyped :
    (mod_ : Module) (tid : TypeId) → IsTyped mod_ tid → tid ≢ 0 → get_type mod_ tid ≢ none
unfolding get_type
get_type-IsTyped mod_ tid h some_id =
    let found = get_elem?-within mod_.types (tid - 1) (omega arith) in ground arith

-- The types that have entries.
abbrev pub has_entry : Option TypeKind → Bool
has_entry (some (primitive_type k)) = true
has_entry (some (array_type element len)) = true
has_entry (some (pointer_type t)) = false
has_entry (some (record_type n size fields)) = false
has_entry (some (enum_type n t values)) = false
has_entry none = false

-- A type that is the element of some array.
abbrev pub IsElement : Module → TypeId → Type 0
IsElement mod_ tid =
    (outer : TypeId) × (len : ℕ) × (get_type mod_ outer ≡ some (array_type tid len))

-- The offset for the element of an array: the one that is recorded for the element. It is 0 for an
-- element without entries, and may be 0 for an array that is itself an element.
abbrev pub IsElementAt : Module → List (TypeId × ℕ) → TypeId → TypeId → ℕ → Type 0
IsElementAt mod_ offsets tid element at =
    (find element offsets ≡ some at)
    ⊎ ((at ≡ 0) × ((has_entry (get_type mod_ element) ≡ false) ⊎ IsElement mod_ tid))

module _ (ac : AbbrevCodes) (c : InfoCodes) (are : AreInfoCodes ac c) where
  abbrev FitsEntry : PrimitiveDescriptor → Type 0
  FitsEntry d = IsText d.name × (d.byte_size < 256) × (d.encoding < 256)

  describe_primitive-FitsEntry : (k : PrimitiveKind) → FitsEntry (describe_primitive c k)
  unfolding describe_primitive
  describe_primitive-FitsEntry k =
      let fits = are.encodings_fit in
      elim k as (λ x. FitsEntry (describe_primitive c x)) [
        | bool ↦ omega arith
        | char ↦ omega arith
        | wchar ↦ omega arith
        | int8 ↦ omega arith
        | int16 ↦ omega arith
        | int32 ↦ omega arith
        | int64 ↦ omega arith
        | uint8 ↦ omega arith
        | uint16 ↦ omega arith
        | uint32 ↦ omega arith
        | uint64 ↦ omega arith
        | float32 ↦ omega arith
        | float64 ↦ omega arith
        | float80 ↦ omega arith
        | pchar ↦ omega arith
        | pwchar ↦ omega arith
      ]

  pub base-Entries :
      (buf : Bytes) (k : PrimitiveKind)
      → Entries ac c buf (base_type_entry ac c k ∷ []) (emit_base_type_die c buf k)
  unfolding emit_base_type_die find_abbrev abbrevs
  base-Entries buf k =
      let (named, sized, encoded) = describe_primitive-FitsEntry k in
      (
        _,
        die-Writes ac c 5 _ buf _ _ (omega arith) refl (
            cons-Attributes ac c ac.at_name ac.form_string _ _ _ _ _ _
              (text-Writes ac c are _ (describe_primitive c k).name named)
              (cons-Attributes ac c ac.at_byte_size ac.form_data1 _ _ _ _ _ _
                (data1-Writes ac c are _ (describe_primitive c k).byte_size sized)
                (cons-Attributes ac c ac.at_encoding ac.form_data1 _ _ _ _ _ _
                  (data1-Writes ac c are _ (describe_primitive c k).encoding encoded)
                  (nil-Attributes ac c _)))),
        refl,
      )

  pub array-Entries :
      (buf : Bytes) (element_offset len : ℕ)
      → element_offset < 2 ^ 32
      → len < 2 ^ 64
      → Entries ac c buf
          (array_type_entry ac element_offset ∷ subrange_entry ac len ∷ end_of_children ∷ [])
          (emit_array_type_die buf element_offset len)
  unfolding emit_array_type_die find_abbrev abbrevs
  array-Entries buf element_offset len fits long = (
    _,
    die-Writes ac c 6 _ buf _ _ (omega arith) refl (
        cons-Attributes ac c ac.at_type ac.form_ref_addr _ _ _ _ _ _
          (ref_addr-Writes ac c are _ element_offset fits) (nil-Attributes ac c _)),
    (
      _,
      die-Writes ac c 7 _ _ _ _ (omega arith) refl (
          cons-Attributes ac c ac.at_upper_bound ac.form_udata _ _ _ _ _ _
            (udata-Writes ac c are _ len long) (nil-Attributes ac c _)),
      (_, end-Writes ac c _, refl),
    ),
  )

  -- The bytes read as the entries, with a rest behind them.
  abbrev pub ReadsAs : Bytes → List Entry → Bytes → Type 0
  ReadsAs bytes [] rest = bytes ≡ rest
  ReadsAs bytes (e ∷ es) rest =
      (mid : Bytes) × (read_entry ac c bytes ≡ some (e, mid)) × ReadsAs mid es rest

  pub record Shown (buf out : Bytes) (es : List Entry) : Type 0 where
    pub shown : Bytes
    pub extends : out ≡ buf ++ shown
    pub reads : (rest : Bytes) → ReadsAs (shown ++ rest) es rest

  pub Entries-Shown :
      (buf out : Bytes) (es : List Entry) → Entries ac c buf es out → Shown buf out es
  Entries-Shown buf out [] e = record {
    shown = [];
    extends = e ∙ sym (append-nil buf);
    reads = λ rest. refl;
  }
  Entries-Shown buf out (x ∷ es) (mid, w, ws) =
      let s = Entries-Shown mid out es ws in
      record {
        shown = w.added ++ s.shown;
        extends = appended_both buf mid out w.added s.shown w.appended s.extends;
        reads = λ rest.
            rw (append_assoc w.added s.shown rest)
              (s.shown ++ rest, w.decodes (s.shown ++ rest), s.reads rest);
      }

  -- The entries of a type.
  abbrev pub DescribesAs :
      Module → List (TypeId × ℕ) → TypeId → Option TypeKind → List Entry → Type 0
  DescribesAs mod_ offsets tid none es = ⊥
  DescribesAs mod_ offsets tid (some (primitive_type k)) es = es ≡ base_type_entry ac c k ∷ []
  DescribesAs mod_ offsets tid (some (array_type element len)) es =
      (at : ℕ) × (es ≡ array_type_entry ac at ∷ subrange_entry ac len ∷ end_of_children ∷ [])
      × IsElementAt mod_ offsets tid element at
  DescribesAs mod_ offsets tid (some (pointer_type t)) es = ⊥
  DescribesAs mod_ offsets tid (some (record_type n size fields)) es = ⊥
  DescribesAs mod_ offsets tid (some (enum_type n t values)) es = ⊥

  abbrev pub Describes : Module → List (TypeId × ℕ) → TypeId → List Entry → Type 0
  Describes mod_ offsets tid es = DescribesAs mod_ offsets tid (get_type mod_ tid) es

  -- The entries of some recorded types, one after the other, and no more.
  abbrev pub Listed : Module → List (TypeId × ℕ) → List (TypeId × ℕ) → List Entry → Type 0
  Listed mod_ offsets [] es = es ≡ []
  Listed mod_ offsets ((tid, off) ∷ more) es =
      (first : List Entry) × (rest : List Entry) × (es ≡ first ++ rest)
      × Describes mod_ offsets tid first
      × Listed mod_ offsets more rest

  -- The type is shown at an offset of the section, behind the part that the unit begins with.
  pub record IsShownAt (mod_ : Module) (buf out : Bytes) (offsets : List (TypeId × ℕ)) (tid off : ℕ)
      : Type 0 where
    pub front : Bytes
    pub shown : Bytes
    pub back : Bytes
    pub entries : List Entry
    pub split : out ≡ buf ++ (front ++ (shown ++ back))
    pub place : off ≡ (length buf + length front) % 2 ^ 32
    pub reads : (rest : Bytes) → ReadsAs (shown ++ rest) entries rest
    pub describes : Describes mod_ offsets tid entries

  -- What holds of the section and the offsets between two types.
  pub record TypesShown (mod_ : Module) (buf : Bytes) (s : TypeState) : Type 0 where
    pub entries : List Entry
    pub wrote : Entries ac c buf entries s.info
    pub listed : Listed mod_ s.type_offsets s.type_offsets entries
    pub level : (d : ℕ) → Leads ac c (suc d) entries (suc d)
    pub shows :
        (tid off : ℕ)
        → find tid s.type_offsets ≡ some off
        → IsShownAt mod_ buf s.info s.type_offsets tid off
