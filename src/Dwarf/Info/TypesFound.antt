-- ===== src/Dwarf/Info/TypesFound.antt =====
-- src/dwarf/dwarf_emitter.cpp: `emitTypeDIEs` leaves no type out that it has an entry for.
use vscode_delphi_extension.Base.{
  ℕ, ◌≡◌, ◌≢◌, refl, ap, ◌⊎◌, subst, true, List, [], ◌∷◌, All, Option, none, some, ◌==◌, ◌>>=◌,
  find, assign, find-assign, nat_eq, arith, Bool-cases, Option-cases, inl, inr,
}
use mathlib.Core.Option.{some-injective}
use vscode_delphi_extension.Model.{
  TypeId, TypeKind, primitive_type, pointer_type, array_type, record_type, enum_type, get_type,
  Module, LocalVar, Symbol, SymbolKind, CompileUnit,
}
use vscode_delphi_extension.Dwarf.Info.{InfoCodes}
use vscode_delphi_extension.Dwarf.Info.TypesWritten.{has_entry, IsElement}
use vscode_delphi_extension.Dwarf.Info.Types.{
  TypeState, offset_in, add_type_die, element_of, ensure_type, pre_ensure_array_element, each_local,
  each_symbol, emit_type_dies,
}

-- The state, if there is one.
abbrev pub Whenever : (TypeState → Type 0) → Option TypeState → Type 0
Whenever P none = Unit
Whenever P (some s) = P s

Whenever-bind :
    (P Q : TypeState → Type 0) (o : Option TypeState) (f : TypeState → Option TypeState)
    → Whenever P o
    → ((s : TypeState) → P s → Whenever Q (f s))
    → Whenever Q (o >>= f)
Whenever-bind P Q none f h k = tt
Whenever-bind P Q (some s) f h k = k s h

Whenever-map :
    (P Q : TypeState → Type 0) (o : Option TypeState)
    → Whenever P o
    → ((s : TypeState) → P s → Q s)
    → Whenever Q o
Whenever-map P Q none h k = tt
Whenever-map P Q (some s) h k = k s h

abbrev pub IsFound : Module → List (TypeId × ℕ) → TypeId → Type 0
IsFound mod_ offsets tid = has_entry (get_type mod_ tid) ≡ true → find tid offsets ≢ none

-- What holds of the types of a symbol that its kind of entry refers to.
abbrev pub ForKind : (TypeId → Type 0) → Symbol → SymbolKind → Type 0
ForKind T y k = elim k as (λ k'. Type 0) [
  | SymbolKind.function ↦ All (λ v. T v.type) y.params × All (λ v. T v.type) y.locals
  | SymbolKind.variable ↦ T y.type
  | SymbolKind.unknown ↦ Unit
]

abbrev pub ByKind : (TypeId → Type 0) → Symbol → Type 0
ByKind T y = ForKind T y y.kind

abbrev pub HasFound : Module → List (TypeId × ℕ) → Symbol → Type 0
HasFound mod_ offsets y = ByKind (IsFound mod_ offsets) y

abbrev pub Grows : TypeState → TypeState → Type 0
Grows s s' = (tid : TypeId) → find tid s.type_offsets ≢ none → find tid s'.type_offsets ≢ none

assign-found : (k v j : ℕ) (m : List (ℕ × ℕ)) → find j m ≢ none → find j (assign k v m) ≢ none
assign-found k v j m h =
    rw (find-assign j k v m)
      (elim (Bool-cases (k == j)) [ inl e ↦ rw e (λ x. absurd (ground arith)) | inr e ↦ rw e h ])

assign-finds : (k v : ℕ) (m : List (ℕ × ℕ)) → find k (assign k v m) ≢ none
assign-finds k v m =
    let same : (k == k) ≡ true = ground arith in
    rw (find-assign k k v m, same) (λ x. absurd (ground arith))

add_type_die-Grows :
    (c : InfoCodes) (s : TypeState) (tid : TypeId) (t : TypeKind) → Grows s (add_type_die c s tid t)
unfolding add_type_die
add_type_die-Grows c s tid (primitive_type k) =
    λ j h. assign-found tid (offset_in s.info) j s.type_offsets h
add_type_die-Grows c s tid (array_type element len) =
    λ j h. assign-found tid (offset_in s.info) j s.type_offsets h
add_type_die-Grows c s tid (pointer_type t) = λ j h. h
add_type_die-Grows c s tid (record_type n size fields) = λ j h. h
add_type_die-Grows c s tid (enum_type n t values) = λ j h. h

add_type_die-finds :
    (c : InfoCodes) (s : TypeState) (tid : TypeId) (t : TypeKind)
    → has_entry (some t) ≡ true
    → find tid (add_type_die c s tid t).type_offsets ≢ none
unfolding add_type_die
add_type_die-finds c s tid (primitive_type k) e = assign-finds tid (offset_in s.info) s.type_offsets
add_type_die-finds c s tid (array_type element len) e =
    assign-finds tid (offset_in s.info) s.type_offsets
add_type_die-finds c s tid (pointer_type t) e = absurd (ground arith)
add_type_die-finds c s tid (record_type n size fields) e = absurd (ground arith)
add_type_die-finds c s tid (enum_type n t values) e = absurd (ground arith)

module _ (c : InfoCodes) (mod_ : Module) where
  pub no_type-none : (tid : TypeId) → (tid == 0) ≡ true → get_type mod_ tid ≡ none
  unfolding get_type
  no_type-none tid e = rw e refl

  pub ensure_type-finds :
      (s : TypeState) (tid : TypeId)
      → Whenever (λ s'. Grows s s' × IsFound mod_ s'.type_offsets tid) (ensure_type c mod_ s tid)
  unfolding ensure_type
  ensure_type-finds s tid = elim (Bool-cases (tid == 0)) [
    | inl zero_id ↦ rw (zero_id, no_type-none tid zero_id) ((λ j h. h), λ e. absurd (ground arith))
    | inr some_id ↦ rw some_id (elim (Option-cases (find tid s.type_offsets)) [
      | inr (off, e) ↦ rw e ((λ j h. h), λ t. λ x. absurd (cc (e, x)))
      | inl fresh ↦ rw fresh (elim (Option-cases (get_type mod_ tid)) [
        | inl missing ↦ rw missing tt
        | inr (t, e) ↦ rw e (add_type_die-Grows c s tid t, λ h. add_type_die-finds c s tid t h)
      ])
    ])
  ]

  -- The element of an array has its offset, or the array is itself an element.
  abbrev pub Readied : List (TypeId × ℕ) → TypeId → Type 0
  Readied offsets tid =
      (element len : ℕ)
      → get_type mod_ tid ≡ some (array_type element len)
      → IsFound mod_ offsets element ⊎ IsElement mod_ tid

  pub Readied-Grows :
      (s s' : TypeState) (tid : TypeId)
      → Grows s s'
      → Readied s.type_offsets tid
      → Readied s'.type_offsets tid
  Readied-Grows s s' tid g h = λ element len e. elim (h element len e) [
    | inl found ↦ inl (λ some_entry. g element (found some_entry))
    | inr outer ↦ inr outer
  ]

  pub pre_ensure-Readied :
      (s : TypeState) (tid : TypeId)
      → Whenever
          (λ s'. Grows s s' × Readied s'.type_offsets tid)
          (pre_ensure_array_element c mod_ s tid)
  unfolding pre_ensure_array_element element_of
  pre_ensure-Readied s tid = elim (Bool-cases (tid == 0)) [
    | inl zero_id ↦
        rw zero_id ((λ j h. h), λ element len e. absurd (cc (no_type-none tid zero_id, e)))
    | inr some_id ↦ rw some_id (elim (Option-cases (get_type mod_ tid)) [
      | inl missing ↦ rw missing tt
      | inr (t, e) ↦ rw e (
          Whenever-map _ _ (ensure_type c mod_ s (element_of t))
            (ensure_type-finds s (element_of t))
            (λ s' (g, found). (
              g,
              λ element len e'. inl (
                  subst (IsFound mod_ s'.type_offsets) (ap element_of (some-injective _ _ e'))
                    found),
            )))
    ])
  ]

  -- The loops keep what each step does, whatever that is, if further steps keep it.
  module _ (f : TypeState → TypeId → Option TypeState) (Q : TypeState → TypeId → Type 0)
      (step : (s : TypeState) (tid : TypeId) → Whenever (λ s'. Grows s s' × Q s' tid) (f s tid))
      (keep : (s s' : TypeState) (tid : TypeId) → Grows s s' → Q s tid → Q s' tid) where
    All-keep :
        (s s' : TypeState) (vs : List LocalVar)
        → Grows s s'
        → All (λ v. Q s v.type) vs
        → All (λ v. Q s' v.type) vs
    All-keep s s' [] g h = tt
    All-keep s s' (v ∷ vs) g (hv, h) = (keep s s' v.type g hv, All-keep s s' vs g h)

    each_local-done :
        (s : TypeState) (vs : List LocalVar)
        → Whenever (λ s'. Grows s s' × All (λ v. Q s' v.type) vs) (each_local f s vs)
    unfolding each_local
    each_local-done s [] = ((λ j h. h), tt)
    each_local-done s (v ∷ vs) =
        Whenever-bind _ (λ s'. Grows s s' × All (λ w. Q s' w.type) (v ∷ vs)) (f s v.type) _
          (step s v.type)
          (λ s1 (g1, q).
            Whenever-map _ (λ s'. Grows s s' × All (λ w. Q s' w.type) (v ∷ vs)) (each_local f s1 vs)
              (each_local-done s1 vs)
              (λ s2 (g2, qs). ((λ j h. g2 j (g1 j h)), (keep s1 s2 v.type g2 q, qs))))

    ByKind-keep : (s s' : TypeState) (y : Symbol) → Grows s s' → ByKind (Q s) y → ByKind (Q s') y
    ByKind-keep s s' y g = go y.kind
      where
        go : (k : SymbolKind) → ForKind (Q s) y k → ForKind (Q s') y k
        go SymbolKind.function (ps, ls) = (All-keep s s' y.params g ps, All-keep s s' y.locals g ls)
        go SymbolKind.variable h = keep s s' y.type g h
        go SymbolKind.unknown h = tt

    symbol-done :
        (s : TypeState) (y : Symbol)
        → Whenever
            (λ s'. Grows s s' × ByKind (Q s') y)
            (elim y.kind as (λ k. Option TypeState) [
              | SymbolKind.variable ↦ f s y.type
              | SymbolKind.function ↦ (do s1 ← each_local f s y.params; each_local f s1 y.locals)
              | SymbolKind.unknown ↦ some s
            ])
    symbol-done s y = go y.kind
      where
        go :
            (k : SymbolKind)
            → Whenever
                (λ s'. Grows s s' × ForKind (Q s') y k)
                (elim k as (λ x. Option TypeState) [
                  | SymbolKind.variable ↦ f s y.type
                  | SymbolKind.function ↦ (do
                    s1 ← each_local f s y.params
                    each_local f s1 y.locals)
                  | SymbolKind.unknown ↦ some s
                ])
        go SymbolKind.variable = step s y.type
        go SymbolKind.unknown = ((λ j h. h), tt)
        go SymbolKind.function =
            Whenever-bind _ (λ s'. Grows s s' × ForKind (Q s') y SymbolKind.function)
              (each_local f s y.params) _ (each_local-done s y.params)
              (λ s1 (g1, ps).
                Whenever-map _ (λ s'. Grows s s' × ForKind (Q s') y SymbolKind.function)
                  (each_local f s1 y.locals) (each_local-done s1 y.locals)
                  (λ s2 (g2, ls). ((λ j h. g2 j (g1 j h)), (All-keep s1 s2 y.params g2 ps, ls))))

    pub each_symbol-done :
        (s : TypeState) (ys : List Symbol)
        → Whenever (λ s'. Grows s s' × All (ByKind (Q s')) ys) (each_symbol f s ys)
    unfolding each_symbol
    each_symbol-done s [] = ((λ j h. h), tt)
    each_symbol-done s (y ∷ ys) =
        Whenever-bind (λ x. Grows s x × ByKind (Q x) y)
          (λ s'. Grows s s' × All (ByKind (Q s')) (y ∷ ys)) _ _ (symbol-done s y)
          (λ s1 (g1, q).
            Whenever-map _ (λ s'. Grows s s' × All (ByKind (Q s')) (y ∷ ys)) (each_symbol f s1 ys)
              (each_symbol-done s1 ys)
              (λ s2 (g2, qs). ((λ j h. g2 j (g1 j h)), (ByKind-keep s1 s2 y g2 q, qs))))

  -- Behind the two passes each type of a symbol that has an entry has been given its offset.
  pub emit_type_dies-HasFound :
      (cu : CompileUnit) (s s' : TypeState)
      → emit_type_dies c mod_ cu s ≡ some s'
      → All (HasFound mod_ s'.type_offsets) cu.symbols
  unfolding emit_type_dies
  emit_type_dies-HasFound cu s s' e = subst (Whenever All_found) e (
      Whenever-bind (λ s1. Unit) All_found
        (each_symbol (pre_ensure_array_element c mod_) s cu.symbols) _ (any _)
        (λ s1 x.
          Whenever-map _ All_found (each_symbol (ensure_type c mod_) s1 cu.symbols)
            (each_symbol-done (ensure_type c mod_) (λ st. IsFound mod_ st.type_offsets)
              ensure_type-finds (λ s1 s2 tid g h some_entry. g tid (h some_entry)) s1 cu.symbols)
            (λ s2 h. h.1)))
    where
      All_found : TypeState → Type 0
      All_found x = All (HasFound mod_ x.type_offsets) cu.symbols

      any : (o : Option TypeState) → Whenever (λ s1. Unit) o
      any none = tt
      any (some x) = tt
