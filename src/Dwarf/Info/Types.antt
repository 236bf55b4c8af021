-- ===== src/Dwarf/Info/Types.antt =====
-- src/dwarf/dwarf_emitter.cpp, `emitTypeDIEs` and what it calls: the entries of types, and where
-- each of them begins.
use vscode_delphi_extension.Base.{
  ℕ, ◌%◌, ◌^◌, List, [], ◌∷◌, Option, none, some, ◌==◌, if◌then◌else◌, ◌>>=◌, Bytes, length, find,
  assign, nat_eq,
}
use vscode_delphi_extension.Model.{
  PrimitiveKind, TypeId, no_type, TypeKind, primitive_type, pointer_type, array_type, record_type,
  enum_type, get_type, LocalVar, Symbol, SymbolKind, CompileUnit, Module,
}
use vscode_delphi_extension.Dwarf.BytesBuf.{u8, u32, uleb128, cstr}
use vscode_delphi_extension.Dwarf.Abbrev.{abbrev_base_type, abbrev_array_type, abbrev_subrange_type}
use vscode_delphi_extension.Dwarf.Info.{InfoCodes, describe_primitive}

-- The section and `type_offsets`.
pub record TypeState : Type 0 where
  pub info : Bytes
  pub type_offsets : List (TypeId × ℕ)

-- The two writers; the offset that they return is `offset_in` of the section before.
abbrev pub offset_in : Bytes → ℕ
offset_in info = length info % 2 ^ 32

unfoldable pub emit_base_type_die : InfoCodes → Bytes → PrimitiveKind → Bytes
unfolding describe_primitive
emit_base_type_die c info k =
    let desc = describe_primitive c k in
    u8 (u8 (cstr (uleb128 info abbrev_base_type) desc.name) desc.byte_size) desc.encoding

unfoldable pub emit_array_type_die : Bytes → ℕ → ℕ → Bytes
emit_array_type_die info element_offset len =
    u8
      (uleb128 (uleb128 (u32 (uleb128 info abbrev_array_type) element_offset) abbrev_subrange_type)
        len)
      0

-- `it->second`, or 0 without an entry.
abbrev pub offset_of : List (TypeId × ℕ) → TypeId → ℕ
offset_of offsets tid =
    if tid == no_type then 0 else elim (find tid offsets) [ some off ↦ off | none ↦ 0 ]

-- The entry of a type that has none yet; records, enumerations and pointers get none.
unfoldable pub add_type_die : InfoCodes → TypeState → TypeId → TypeKind → TypeState
unfolding emit_base_type_die emit_array_type_die
add_type_die c s tid (primitive_type k) = record {
  info = emit_base_type_die c s.info k;
  type_offsets = assign tid (offset_in s.info) s.type_offsets;
}
add_type_die c s tid (array_type element len) = record {
  info = emit_array_type_die s.info (offset_of s.type_offsets element) len;
  type_offsets = assign tid (offset_in s.info) s.type_offsets;
}
add_type_die c s tid (pointer_type t) = s
add_type_die c s tid (record_type n size fields) = s
add_type_die c s tid (enum_type n t values) = s

unfoldable pub ensure_type : InfoCodes → Module → TypeState → TypeId → Option TypeState
unfolding add_type_die
ensure_type c mod_ s tid = if tid == no_type then some s else elim (find tid s.type_offsets) [
  | some off ↦ some s
  | none ↦ (do t ← get_type mod_ tid; some (add_type_die c s tid t))
]

-- The element of an array type, if it has one.
unfoldable pub element_of : TypeKind → TypeId
element_of (array_type element len) = element
element_of (primitive_type k) = no_type
element_of (pointer_type t) = no_type
element_of (record_type n size fields) = no_type
element_of (enum_type n t values) = no_type

-- The lambda `preEnsureArrayElement`; without an element `ensureType` has nothing to do.
unfoldable pub pre_ensure_array_element : InfoCodes → Module → TypeState → TypeId → Option TypeState
unfolding ensure_type element_of
pre_ensure_array_element c mod_ s tid =
    if tid == no_type
    then some s
    else (do t ← get_type mod_ tid; ensure_type c mod_ s (element_of t))

-- The loops over parameters, locals and symbols, which both passes share.
unfoldable pub each_local :
    (TypeState → TypeId → Option TypeState) → TypeState → List LocalVar → Option TypeState
each_local f s [] = some s
each_local f s (v ∷ vs) = do s' ← f s v.type; each_local f s' vs

unfoldable pub each_symbol :
    (TypeState → TypeId → Option TypeState) → TypeState → List Symbol → Option TypeState
unfolding each_local
each_symbol f s [] = some s
each_symbol f s (sym ∷ syms) = do
  s' ← elim sym.kind as (λ k. Option TypeState) [
    | SymbolKind.variable ↦ f s sym.type
    | SymbolKind.function ↦ (do s1 ← each_local f s sym.params; each_local f s1 sym.locals)
    | SymbolKind.unknown ↦ some s
  ]
  each_symbol f s' syms

unfoldable pub emit_type_dies : InfoCodes → Module → CompileUnit → TypeState → Option TypeState
unfolding each_symbol ensure_type pre_ensure_array_element
emit_type_dies c mod_ cu s = do
  s' ← each_symbol (pre_ensure_array_element c mod_) s cu.symbols
  each_symbol (ensure_type c mod_) s' cu.symbols
