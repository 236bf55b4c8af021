-- ===== src/Compose/Frame/Layout.antt =====
-- The slots of a procedure, on every procedure record and every frame that int32_t holds.
use vscode_delphi_extension.Base.{
  ℕ, ◌+◌, ◌-◌, ◌*◌, ◌^◌, ◌≤◌, ◌≡◌, Bool, true, false, some, List, [], ◌∷◌, ◌++◌, map, ℤ, pos,
  negsuc, ◌≤ℤ◌, Bytes, codes, if◌then◌else◌, arith, ◌+ℤ◌, ◌-ℤ◌, half, pos_part, neg_part,
}
use vscode_delphi_extension.Rsm.Types.{Variable, ProcedureRecord}
use vscode_delphi_extension.Pe.Prologue.{ParsedPrologue}
use vscode_delphi_extension.Pe.Prologue.Bounds.{IsI32}
use vscode_delphi_extension.Compose.Frame.{
  ResolvedVar, ResolvedFunction, Frame, is_self, checked, finish_var, apply_pascal_type,
  apply_aggregate_ref,
}

-- What the loops leave of a variable: its name, its role and its place.
pub record Slot : Type 0 where
  pub name : Bytes
  pub is_param : Bool
  pub is_static_link : Bool
  pub rbp_offset : ℤ

abbrev pub slot : ResolvedVar → Slot
slot rv = record {
  name = rv.name;
  is_param = rv.is_param;
  is_static_link = rv.is_static_link;
  rbp_offset = rv.rbp_offset;
}

pub finish_var-slot :
    (f : Frame) (v : Variable) (rv : ResolvedVar) → slot (finish_var f v rv) ≡ slot rv
unfolding finish_var apply_pascal_type apply_aggregate_ref
finish_var-slot f v rv = ground arith

-- The frame formulas of the source's comments: with `s` the size of the local area and `k` pushes,
-- the shadow slot is at `s + 16 + 8 k`, parameters at `s + 8 k + raw / 2`, locals at
-- `s - 8 k + raw / 2`.
abbrev pub outer_slot : ℤ → ℕ → Slot
outer_slot s k = record {
  name = codes "__frame_outer__";
  is_param = true;
  is_static_link = true;
  rbp_offset = s +ℤ pos 16 +ℤ pos (8 * k);
}

abbrev pub param_slot : ℤ → ℕ → Variable → Slot
param_slot s k p = record {
  name = p.name;
  is_param = true;
  is_static_link = false;
  rbp_offset =
      if is_self p then s +ℤ pos 16 +ℤ pos (8 * k) else s +ℤ pos (8 * k) +ℤ half p.stack_offset;
}

abbrev pub local_slot : ℤ → ℕ → Variable → Slot
local_slot s k l = record {
  name = l.name;
  is_param = false;
  is_static_link = false;
  rbp_offset = s -ℤ pos (8 * k) +ℤ half l.stack_offset;
}

abbrev pub slots : ProcedureRecord → ℤ → ℕ → List Slot
slots proc s k =
    (if proc.has_static_link then outer_slot s k ∷ [] else [])
    ++ (map (param_slot s k) proc.params ++ map (local_slot s k) proc.locals)

pub half_parts :
    (z : ℤ)
    → (2 * pos_part (half z) ≤ pos_part z)
      × (pos_part z ≤ 2 * pos_part (half z) + 1)
      × (2 * neg_part (half z) ≤ neg_part z)
      × (neg_part z ≤ 2 * neg_part (half z) + 1)
unfolding half
half_parts (pos n) = omega arith
half_parts (negsuc n) = ground arith

-- A frame size that leaves 2^16 bytes to the ends of int32_t, and a raw offset of 16 bits.
abbrev pub FitsFrame : ℤ → Type 0
FitsFrame s = (negsuc (2 ^ 31 - 2 ^ 16 - 1) ≤ℤ s) × (s ≤ℤ pos (2 ^ 31 - 2 ^ 16))

abbrev pub IsRaw : Variable → Type 0
IsRaw v = (negsuc (2 ^ 15 - 1) ≤ℤ v.stack_offset) × (v.stack_offset ≤ℤ pos (2 ^ 15))

pub checked-IsI32 : (z : ℤ) → IsI32 z → checked z ≡ some z
unfolding checked
checked-IsI32 (pos n) h = ground arith
checked-IsI32 (negsuc n) h = ground arith

module _ (s : ℤ) (k : ℕ) (marker_sizes : List (ℕ × ℕ)) (sniffed : List (ℤ × ℕ)) (fits : FitsFrame s)
    (few : k ≤ 16) where
  abbrev the_frame : Frame
  the_frame = record {
    sub_rsp = s;
    param_shift = pos (8 * k);
    marker_sizes = marker_sizes;
    sniffed = sniffed;
  }

-- The frame that the prologue decodes to, and the slots that go with it.
abbrev pub IsLaidOut : ProcedureRecord → ParsedPrologue → ResolvedFunction → Type 0
IsLaidOut proc r out =
    (out.sub_rsp ≡ r.sub_rsp)
    × (out.extra_pushes ≡ r.extra_pushes)
    × (map slot out.vars ≡ slots proc r.sub_rsp r.extra_pushes)
