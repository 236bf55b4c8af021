-- ===== src/Tests/Compose.antt =====
-- src/compose on a procedure with two parameters and two locals, and on five globals.
use vscode_delphi_extension.Base.{
  ℕ, ◌≡◌, ◌↔◌, true, false, some, List, [], ◌∷◌, ℤ, pos, negsuc, Bytes, codes, find, nat_eq,
}
use vscode_delphi_extension.Rsm.Types.{Variable, ProcedureRecord}
use vscode_delphi_extension.Pe.Prologue.{ParsedPrologue}
use vscode_delphi_extension.Pe.Prologue.RoundTrip.{low, imm8, prologue}
use vscode_delphi_extension.Compose.MarkerSizes.{
  build_marker_sizes, sort, unique, addresses, usable_gap,
}
use vscode_delphi_extension.Compose.MarkerSizes.Order.{IsGap, usable_gap_iff}
use vscode_delphi_extension.Compose.MarkerSizes.Agreement.{gaps, agreed, build_marker_sizes-agreed}
use vscode_delphi_extension.Compose.Frame.{ResolvedVar, Frame, fresh}

abbrev plain : Variable
plain = record {
  name = codes "X";
  address = 0;
  stack_offset = pos 0;
  inline_type_id = 0;
  trailer_type_id = 0;
  type_marker = 0;
  is_primitive = true;
  has_trailer = false;
  file_offset = 0;
  pascal_type = [];
  unit_anchor_offset = 0;
}

abbrev local_at : Bytes → ℤ → Variable
local_at name raw = record plain { name = name; stack_offset = raw }

abbrev procedure : ProcedureRecord
procedure = record {
  name = codes "P";
  address = 0x401000;
  params = record plain { name = codes "A"; stack_offset = pos 0x20 } ∷ [];
  locals = local_at (codes "I") (negsuc 15) ∷ local_at (codes "J") (negsuc 7) ∷ [];
  file_offset = 0;
  file_offset_end = 0;
  has_static_link = false;
}

abbrev body : Bytes
body = prologue (low 3 ∷ []) (imm8 0x20) (0xC3 ∷ [])

abbrev decoded : ParsedPrologue
decoded = record { sub_rsp = pos 0x20; extra_pushes = 1 }

abbrev one_push : Frame
one_push = record { sub_rsp = pos 0x20; param_shift = pos 8; marker_sizes = []; sniffed = [] }

abbrev placed : Variable → ℤ → ResolvedVar
placed v offset = record fresh { name = v.name; rbp_offset = offset }

abbrev local_i : Variable
local_i = local_at (codes "I") (negsuc 15)

abbrev local_j : Variable
local_j = local_at (codes "J") (negsuc 7)

abbrev global : ℕ → ℕ → Variable
global address marker = record plain { address = address; type_marker = marker }

-- Marker 5 has gap 4 twice, marker 6 has gaps 8 and 4.
abbrev globals : List Variable
globals =
    global 0x5000 5 ∷ global 0x5004 6 ∷ global 0x500C 5 ∷ global 0x5010 6 ∷ global 0x5014 7 ∷ []

build_marker_sizes-agreed_example :
    find 5 (build_marker_sizes globals)
    ≡ agreed (gaps (unique (sort (addresses globals))) 5 globals)
build_marker_sizes-agreed_example = build_marker_sizes-agreed globals 5

usable_gap_iff_example :
    (usable_gap (unique (sort (addresses globals))) (global 0x5004 6) ≡ some 8)
    ↔ IsGap globals (global 0x5004 6) 8
usable_gap_iff_example = usable_gap_iff globals (global 0x5004 6) 8
