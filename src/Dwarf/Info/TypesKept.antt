-- ===== src/Dwarf/Info/TypesKept.antt =====
-- What holds of the section and the recorded offsets is kept by each step over the types.
use vscode_delphi_extension.Base.{
  ◌≡◌, refl, List, [], ◌∷◌, All, Option, none, some, ◌==◌, ◌>>=◌, Bytes, find, nat_eq, arith,
  Bool-cases, Option-cases, inl, inr, Returns, Returns-bind, Returns-map, ℕ,
}
use vscode_delphi_extension.Model.{
  TypeId, TypeKind, primitive_type, pointer_type, array_type, record_type, enum_type, get_type,
  Module, LocalVar, Symbol, SymbolKind, CompileUnit,
}
use vscode_delphi_extension.Dwarf.Abbrev.{AbbrevCodes}
use vscode_delphi_extension.Dwarf.Info.{InfoCodes}
use vscode_delphi_extension.Dwarf.Info.Types.{
  TypeState, offset_in, offset_of, add_type_die, element_of, ensure_type, pre_ensure_array_element,
  each_local, each_symbol, emit_type_dies,
}
use vscode_delphi_extension.Dwarf.Info.Shown.{base_type_entry, array_type_entry, subrange_entry}
use vscode_delphi_extension.Dwarf.Reader.{end_of_children, depth_behind}
use vscode_delphi_extension.Dwarf.Reader.Forms.{AreInfoCodes}
use vscode_delphi_extension.Dwarf.Info.TypesWritten.{
  IsTyped, HasArrays, get_type-IsTyped, base-Entries, array-Entries, TypesShown,
}
use vscode_delphi_extension.Dwarf.Info.TypesFound.{
  Whenever, IsFound, ForKind, ByKind, Grows, Readied, Readied-Grows, pre_ensure-Readied,
  no_type-none, ensure_type-finds, each_symbol-done,
}
use vscode_delphi_extension.Dwarf.Info.TypesAdded.{add-TypesShown, offset_of-lt, element_at}

-- The types of a symbol are those of the module.
pub record HasTypes (mod_ : Module) (y : Symbol) : Type 0 where
  pub type_is : IsTyped mod_ y.type
  pub params_are : All (λ v. IsTyped mod_ v.type) y.params
  pub locals_are : All (λ v. IsTyped mod_ v.type) y.locals

module _ (ac : AbbrevCodes) (c : InfoCodes) (are : AreInfoCodes ac c) (mod_ : Module)
    (buf : Bytes) where
  abbrev IsKept : TypeState → Type 0
  IsKept s = TypesShown ac c are mod_ buf s

  module _ (has : HasArrays mod_) where
    add_type_die-IsKept :
        (s : TypeState) (tid : TypeId) (t : TypeKind)
        → IsKept s
        → find tid s.type_offsets ≡ none
        → get_type mod_ tid ≡ some t
        → Readied c mod_ s.type_offsets tid
        → IsKept (add_type_die c s tid t)
    unfolding add_type_die depth_behind
    add_type_die-IsKept s tid (primitive_type k) h fresh e ready =
        let differ = are.children_differ in
        add-TypesShown ac c are mod_ buf s tid (base_type_entry ac c k ∷ []) _ h fresh
          (base-Entries ac c are s.info k) (λ d. ground arith) (rw e refl)
    add_type_die-IsKept s tid (array_type element len) h fresh e ready =
        let differ = are.children_differ in
        let (long, typed) = has tid element len e in
        add-TypesShown ac c are mod_ buf s tid
          (array_type_entry ac (offset_of s.type_offsets element)
            ∷ subrange_entry ac len
            ∷ end_of_children
            ∷ [])
          _ h fresh
          (array-Entries ac c are s.info (offset_of s.type_offsets element) len
            (offset_of-lt ac c are mod_ buf s h element) long)
          (λ d. ground arith)
          (rw e (
            offset_of s.type_offsets element,
            refl,
            element_at ac c are mod_ buf tid element (offset_in s.info) s fresh
                (ready element len e),
          ))
    add_type_die-IsKept s tid (pointer_type t) h fresh e ready = h
    add_type_die-IsKept s tid (record_type n size fields) h fresh e ready = h
    add_type_die-IsKept s tid (enum_type n t values) h fresh e ready = h

    ensure_type-IsKept :
        (s : TypeState) (tid : TypeId)
        → IsTyped mod_ tid
        → Readied c mod_ s.type_offsets tid
        → IsKept s
        → Returns IsKept (ensure_type c mod_ s tid)
    unfolding ensure_type
    ensure_type-IsKept s tid typed ready h = elim (Bool-cases (tid == 0)) [
      | inl zero_id ↦ rw zero_id h
      | inr some_id ↦ rw some_id (elim (Option-cases (find tid s.type_offsets)) [
        | inr (off, e) ↦ rw e h
        | inl fresh ↦ rw fresh (elim (Option-cases (get_type mod_ tid)) [
          | inl missing ↦ absurd (get_type-IsTyped mod_ tid typed (ground arith) missing)
          | inr (t, e) ↦ rw e (add_type_die-IsKept s tid t h fresh e ready)
        ])
      ])
    ]

    none_at_zero : (offsets : List (TypeId × ℕ)) → Readied c mod_ offsets 0
    none_at_zero offsets = λ x n e. absurd (cc (no_type-none c mod_ 0 refl, e))

    element_of-IsTyped :
        (tid : TypeId) (t : TypeKind) → get_type mod_ tid ≡ some t → IsTyped mod_ (element_of t)
    unfolding element_of
    element_of-IsTyped tid (array_type element len) e = (has tid element len e).1
    element_of-IsTyped tid (primitive_type k) e = omega arith
    element_of-IsTyped tid (pointer_type t) e = omega arith
    element_of-IsTyped tid (record_type n size fields) e = omega arith
    element_of-IsTyped tid (enum_type n t values) e = omega arith

    -- In the first pass each array that is added is an element.
    element_of-Readied :
        (offsets : List (TypeId × ℕ)) (tid : TypeId) (t : TypeKind)
        → get_type mod_ tid ≡ some t
        → Readied c mod_ offsets (element_of t)
    unfolding element_of
    element_of-Readied offsets tid (array_type element len) e = λ x n e'. inr (tid, len, e)
    element_of-Readied offsets tid (primitive_type k) e = none_at_zero offsets
    element_of-Readied offsets tid (pointer_type t) e = none_at_zero offsets
    element_of-Readied offsets tid (record_type n size fields) e = none_at_zero offsets
    element_of-Readied offsets tid (enum_type n t values) e = none_at_zero offsets

    pre_ensure-IsKept :
        (s : TypeState) (tid : TypeId)
        → IsTyped mod_ tid
        → IsKept s
        → Returns IsKept (pre_ensure_array_element c mod_ s tid)
    unfolding pre_ensure_array_element
    pre_ensure-IsKept s tid typed h = elim (Bool-cases (tid == 0)) [
      | inl zero_id ↦ rw zero_id h
      | inr some_id ↦ rw some_id (elim (Option-cases (get_type mod_ tid)) [
        | inl missing ↦ absurd (get_type-IsTyped mod_ tid typed (ground arith) missing)
        | inr (t, e) ↦ rw e (
            ensure_type-IsKept s (element_of t) (element_of-IsTyped tid t e)
              (element_of-Readied s.type_offsets tid t e) h)
      ])
    ]

    -- The loops keep what each step keeps, for types of which something holds.
    module _ (I : TypeState → Type 0) (T : TypeId → Type 0)
        (f : TypeState → TypeId → Option TypeState)
        (step : (s : TypeState) (tid : TypeId) → T tid → I s → Returns I (f s tid)) where
      each_local-keeps :
          (s : TypeState) (vs : List LocalVar)
          → All (λ v. T v.type) vs
          → I s
          → Returns I (each_local f s vs)
      unfolding each_local
      each_local-keeps s [] typed h = h
      each_local-keeps s (v ∷ vs) (hv, hvs) h =
          Returns-bind I I (f s v.type) _ (step s v.type hv h)
            (λ s' h'. each_local-keeps s' vs hvs h')

      each_symbol-keeps :
          (s : TypeState) (syms : List Symbol)
          → All (ByKind T) syms
          → I s
          → Returns I (each_symbol f s syms)
      unfolding each_symbol
      each_symbol-keeps s [] typed h = h
      each_symbol-keeps s (y ∷ syms) (hy, hs) h =
          Returns-bind I I _ _ (one y.kind hy) (λ s' h'. each_symbol-keeps s' syms hs h')
        where
          one :
              (k : SymbolKind)
              → ForKind T y k
              → Returns I (elim k as (λ x. Option TypeState) [
                | SymbolKind.variable ↦ f s y.type
                | SymbolKind.function ↦ (do s1 ← each_local f s y.params; each_local f s1 y.locals)
                | SymbolKind.unknown ↦ some s
              ])
          one SymbolKind.variable typed = step s y.type typed h
          one SymbolKind.function (params, locals) =
              Returns-bind I I (each_local f s y.params) _ (each_local-keeps s y.params params h)
                (λ s1 h1. each_local-keeps s1 y.locals locals h1)
          one SymbolKind.unknown typed = h

    HasTypes-ByKind : (y : Symbol) → HasTypes mod_ y → ByKind (IsTyped mod_) y
    HasTypes-ByKind y h = go y.kind
      where
        go : (k : SymbolKind) → ForKind (IsTyped mod_) y k
        go SymbolKind.function = (h.params_are, h.locals_are)
        go SymbolKind.variable = h.type_is
        go SymbolKind.unknown = tt

    All-both {ℓ} :
        {A : Type ℓ} (P Q : A → Type 0) (xs : List A)
        → All P xs
        → All Q xs
        → All (λ x. P x × Q x) xs
    All-both P Q [] ps qs = tt
    All-both P Q (x ∷ xs) (p, ps) (q, qs) = ((p, q), All-both P Q xs ps qs)

    ByKind-both :
        (T U : TypeId → Type 0) (y : Symbol)
        → ByKind T y
        → ByKind U y
        → ByKind (λ tid. T tid × U tid) y
    ByKind-both T U y = go y.kind
      where
        go : (k : SymbolKind) → ForKind T y k → ForKind U y k → ForKind (λ tid. T tid × U tid) y k
        go SymbolKind.function (tp, tl) (up, ul) =
            (All-both _ _ y.params tp up, All-both _ _ y.locals tl ul)
        go SymbolKind.variable t u = (t, u)
        go SymbolKind.unknown t u = tt

    AreTyped : (ys : List Symbol) → All (HasTypes mod_) ys → All (ByKind (IsTyped mod_)) ys
    AreTyped [] typed = tt
    AreTyped (y ∷ ys) (h, hs) = (HasTypes-ByKind y h, AreTyped ys hs)

    AreBoth :
        (T U : TypeId → Type 0) (ys : List Symbol)
        → All (ByKind T) ys
        → All (ByKind U) ys
        → All (ByKind (λ tid. T tid × U tid)) ys
    AreBoth T U [] ts us = tt
    AreBoth T U (y ∷ ys) (t, ts) (u, us) = (ByKind-both T U y t u, AreBoth T U ys ts us)

    Returns-Whenever :
        (P Q : TypeState → Type 0) (o : Option TypeState)
        → Returns P o
        → Whenever Q o
        → Returns (λ s. P s × Q s) o
    Returns-Whenever P Q none h k = elim h [ ]
    Returns-Whenever P Q (some s) h k = (h, k)

    -- The second pass, behind a state in which the elements of its arrays have their offsets.
    second_pass :
        (s1 : TypeState) (ys : List Symbol)
        → All (ByKind (IsTyped mod_)) ys
        → All (ByKind (Readied c mod_ s1.type_offsets)) ys
        → IsKept s1
        → Returns IsKept (each_symbol (ensure_type c mod_) s1 ys)
    second_pass s1 ys typed ready h =
        Returns-map (λ s. IsKept s × Grows s1 s) IsKept _ (λ s (kept, g). kept)
          (each_symbol-keeps (λ s. IsKept s × Grows s1 s)
            (λ tid. IsTyped mod_ tid × Readied c mod_ s1.type_offsets tid) (ensure_type c mod_)
            (λ s tid (t, r) (kept, g).
              Returns-map (λ s'. IsKept s' × (Grows s s' × IsFound mod_ s'.type_offsets tid)) _
                (ensure_type c mod_ s tid) (λ s' (kept', (g', found)). (kept', λ j x. g' j (g j x)))
                (Returns-Whenever IsKept _ (ensure_type c mod_ s tid)
                  (ensure_type-IsKept s tid t (Readied-Grows c mod_ s1 s tid g r) kept)
                  (ensure_type-finds c mod_ s tid)))
            s1 ys (AreBoth _ _ ys typed ready) (h, λ j x. x))

    pub emit_type_dies-IsKept :
        (cu : CompileUnit) (s : TypeState)
        → All (HasTypes mod_) cu.symbols
        → IsKept s
        → Returns IsKept (emit_type_dies c mod_ cu s)
    unfolding emit_type_dies
    emit_type_dies-IsKept cu s typed h =
        let pre = each_symbol (pre_ensure_array_element c mod_) s cu.symbols in
        let are_typed = AreTyped cu.symbols typed in
        Returns-bind _ IsKept pre _
          (Returns-Whenever IsKept _ pre
            (each_symbol-keeps IsKept (IsTyped mod_) (pre_ensure_array_element c mod_)
              pre_ensure-IsKept s cu.symbols are_typed h)
            (each_symbol-done c mod_ (pre_ensure_array_element c mod_)
              (λ st. Readied c mod_ st.type_offsets) (pre_ensure-Readied c mod_)
              (Readied-Grows c mod_) s cu.symbols))
          (λ s1 (kept, (g, ready)). second_pass s1 cu.symbols are_typed ready kept)
