-- ===== src/Compose/Frame.antt =====
-- src/compose/frame.h and frame.cpp: the variables of a procedure, placed relative to rbp. `none` is
-- a fault of one of the two decoders, or a sum that overflows int32_t, which has no defined result.
pub mod Layout
pub mod Placement
use vscode_delphi_extension.Base.{
  ℕ, ◌*◌, ◌^◌, ltb, negsuc, Bool, true, false, not, ◌||◌, Option, none, some, List, [], ◌∷◌, ◌++◌,
  ◌==◌, if◌then◌else◌, ◌>>=◌, ℤ, pos, ◌+ℤ◌, ◌-ℤ◌, half, Bytes, codes, beq_bytes, find, nat_eq,
  int_eq, is_empty,
}
use vscode_delphi_extension.Model.{PrimitiveKind}
use vscode_delphi_extension.Rsm.Types.{Variable, ProcedureRecord}
use vscode_delphi_extension.Rsm.Internal.{PrimitiveDesc, lookup_primitive_desc}
use vscode_delphi_extension.Pe.Prologue.{parse_prologue}
use vscode_delphi_extension.Pe.SizeSniffer.{Sizes, sniff_stack_var_sizes}

pub record ResolvedVar : Type 0 where
  pub name : Bytes
  pub rbp_offset : ℤ
  pub byte_size : ℕ
  pub prim_kind : Option PrimitiveKind
  pub is_param : Bool
  pub is_self : Bool
  pub is_static_link : Bool
  pub aggregate_hash : ℕ
  pub unit_anchor_offset : ℕ

-- The member initialisers of `ResolvedVar`.
abbrev pub fresh : ResolvedVar
fresh = record {
  name = [];
  rbp_offset = pos 0;
  byte_size = 0;
  prim_kind = none;
  is_param = false;
  is_self = false;
  is_static_link = false;
  aggregate_hash = 0;
  unit_anchor_offset = 0;
}

pub record ResolvedFunction : Type 0 where
  pub sub_rsp : ℤ
  pub extra_pushes : ℕ
  pub vars : List ResolvedVar

unfoldable pub is_self : Variable → Bool
is_self v = beq_bytes v.name (codes "Self") || v.type_marker == 0x29 || v.type_marker == 0xD5

unfoldable pub resolve_size : Variable → ℤ → List (ℕ × ℕ) → Sizes → ℕ
resolve_size v real_off marker_sizes sniffed =
    if is_self v then 8 else elim (find v.type_marker marker_sizes) [
      | some size ↦ size
      | none ↦ elim (find real_off sniffed) [ some size ↦ size | none ↦ 0 ]
    ]

-- `Reader::resolvePrimitive` is the lookup in the table of primitives.
unfoldable pub apply_pascal_type : ResolvedVar → Variable → ResolvedVar
apply_pascal_type rv v =
    if is_empty v.pascal_type then rv else elim (lookup_primitive_desc v.pascal_type) [
      | some d ↦ record rv { prim_kind = some d.kind; byte_size = d.byte_size }
      | none ↦ rv
    ]

unfoldable pub apply_aggregate_ref : ResolvedVar → Variable → ResolvedVar
apply_aggregate_ref rv v =
    if v.is_primitive
    then rv
    else if v.inline_type_id == 0
    then rv
    else record rv { aggregate_hash = v.inline_type_id; unit_anchor_offset = v.unit_anchor_offset }

-- What `resolveFunction` has at hand in its loops.
pub record Frame : Type 0 where
  pub sub_rsp : ℤ
  pub param_shift : ℤ
  pub marker_sizes : List (ℕ × ℕ)
  pub sniffed : Sizes

-- The value of an int32_t sum.
unfoldable pub checked : ℤ → Option ℤ
checked (pos n) = if ltb n (2 ^ 31) then some (pos n) else none
checked (negsuc n) = if ltb n (2 ^ 31) then some (negsuc n) else none

-- The first shadow slot, where the static link and Self are.
unfoldable pub shadow_slot : Frame → Option ℤ
unfolding checked
shadow_slot f = do sum ← checked (f.sub_rsp +ℤ pos 16); checked (sum +ℤ f.param_shift)

unfoldable pub static_link : Frame → Option ResolvedVar
unfolding shadow_slot
static_link f = do
  offset ← shadow_slot f
  some (record fresh {
    name = codes "__frame_outer__";
    is_param = true;
    is_static_link = true;
    rbp_offset = offset;
    byte_size = 8;
  })

-- The common end of both loop bodies.
unfoldable pub finish_var : Frame → Variable → ResolvedVar → ResolvedVar
finish_var f v rv =
    let sized = record rv { byte_size = resolve_size v rv.rbp_offset f.marker_sizes f.sniffed } in
    apply_aggregate_ref (apply_pascal_type sized v) v

unfoldable pub param_offset : Frame → Variable → Option ℤ
unfolding checked
param_offset f p = do
  sum ← checked (f.sub_rsp +ℤ f.param_shift)
  checked (sum +ℤ half p.stack_offset)

unfoldable pub resolve_param : Frame → Variable → Option ResolvedVar
unfolding shadow_slot param_offset
resolve_param f p = do
  offset ← if is_self p then shadow_slot f else param_offset f p
  some (
      finish_var f p
        (record fresh { name = p.name; is_param = true; is_self = is_self p; rbp_offset = offset }))

unfoldable pub local_offset : Frame → Variable → Option ℤ
unfolding checked
local_offset f l = do
  sum ← checked (f.sub_rsp -ℤ f.param_shift)
  checked (sum +ℤ half l.stack_offset)

unfoldable pub resolve_local : Frame → Variable → Option ResolvedVar
unfolding local_offset
resolve_local f l = do
  offset ← local_offset f l
  some (finish_var f l (record fresh { name = l.name; is_param = false; rbp_offset = offset }))

-- The two loops.
unfoldable pub place_each :
    (Variable → Option ResolvedVar) → List Variable → Option (List ResolvedVar)
place_each place [] = some []
place_each place (v ∷ vs) = do rv ← place v; rvs ← place_each place vs; some (rv ∷ rvs)

unfoldable pub outer_link : ProcedureRecord → Frame → Option (List ResolvedVar)
unfolding static_link
outer_link proc f =
    if proc.has_static_link then (do sl ← static_link f; some (sl ∷ [])) else some []

unfoldable pub resolve_function : ProcedureRecord → Bytes → List (ℕ × ℕ) → Option ResolvedFunction
unfolding outer_link resolve_param resolve_local place_each
resolve_function proc code marker_sizes = do
  prologue ← parse_prologue code
  sniffed ← sniff_stack_var_sizes code
  let f : Frame = record {
    sub_rsp = prologue.sub_rsp;
    param_shift = pos (8 * prologue.extra_pushes);
    marker_sizes = marker_sizes;
    sniffed = sniffed;
  }
  outer ← outer_link proc f
  params ← place_each (resolve_param f) proc.params
  locals ← place_each (resolve_local f) proc.locals
  some (record {
    sub_rsp = prologue.sub_rsp;
    extra_pushes = prologue.extra_pushes;
    vars = outer ++ (params ++ locals);
  })
