-- ===== src/Tests/Pe.antt =====
-- src/pe on machine code as Delphi emits it.
use vscode_delphi_extension.Base.{
  ◌≡◌, refl, true, false, some, none, List, [], ◌∷◌, ℤ, pos, negsuc, Bytes, find, int_eq, Returns,
  arith, to_i8, to_i32, or32, ◌+ℤ◌, emplace,
}
use vscode_delphi_extension.Pe.Prologue.{parse_prologue, skip_pushes, parse_sub_rsp}
use vscode_delphi_extension.Pe.Prologue.Bounds.{InRange, parse_prologue-InRange}
use vscode_delphi_extension.Pe.Prologue.RoundTrip.{
  low, high, imm8, prologue, parse_prologue-prologue,
}
use vscode_delphi_extension.Pe.SizeSniffer.{
  Sizes, sniff_stack_var_sizes, sniff_loop, sniff_at, sniff_opcode, sniff_operand, operand_prefix,
  rex_prefix, opcode_shape, is_rbp_disp8, is_rex, has_rex_w,
}
use vscode_delphi_extension.Pe.SizeSniffer.Bounds.{HasWidths, sniff_stack_var_sizes-HasWidths}
use vscode_delphi_extension.Pe.SizeSniffer.RoundTrip.{
  Mov, store, load, store_imm, disp8, encode_all, first_width, sniff_stack_var_sizes-encode_all,
}
use vscode_delphi_extension.Pe.ThunkScanner.{Section, scan_section, scan_adjuster_thunks}
use vscode_delphi_extension.Pe.ThunkScanner.Sound.{Chains, scan_adjuster_thunks-Chains}
use vscode_delphi_extension.Pe.ThunkScanner.RoundTrip.{Thunk, scan_section-encode_all}

-- push rbp; push rbx; push r14; sub rsp, 0x20; mov rbp, rsp.
abbrev framed : Bytes
framed = 0x55 ∷ 0x53 ∷ 0x41 ∷ 0x56 ∷ 0x48 ∷ 0x83 ∷ 0xEC ∷ 0x20 ∷ 0x48 ∷ 0x8B ∷ 0xEC ∷ []

framed_run : parse_prologue framed ≡ some (record { sub_rsp = pos 0x20; extra_pushes = 2 })
unfolding parse_prologue skip_pushes parse_sub_rsp to_i8
framed_run = refl

parse_prologue-InRange_example : Returns InRange (parse_prologue framed)
parse_prologue-InRange_example = parse_prologue-InRange framed (omega arith)

parse_prologue-prologue_example :
    parse_prologue (prologue (low 3 ∷ high 6 ∷ []) (imm8 0x20) (0xC3 ∷ []))
    ≡ some (record { sub_rsp = pos 0x20; extra_pushes = 2 })
unfolding to_i8
parse_prologue-prologue_example =
    parse_prologue-prologue (low 3 ∷ high 6 ∷ []) (imm8 0x20) (0xC3 ∷ []) (omega arith)
      (omega arith)

-- mov [rbp-8], rcx; mov eax, [rbp+0x10]; mov word [rbp-8], 1.
abbrev movs : List Mov
movs =
    (record { op16 = false; rex = some 8; operation = store; reg = 1; disp = disp8 0xF8; imm = [] })
    ∷ (record { op16 = false; rex = none; operation = load; reg = 0; disp = disp8 0x10; imm = [] })
    ∷ (record {
      op16 = true;
      rex = none;
      operation = store_imm;
      reg = 0;
      disp = disp8 0xF8;
      imm = 1 ∷ 0 ∷ [];
    })
    ∷ []

movs_run :
    sniff_stack_var_sizes (0x48 ∷ 0x89 ∷ 0x4D ∷ 0xF8 ∷ 0x90 ∷ 0x8B ∷ 0x45 ∷ 0x10 ∷ [])
    ≡ some ((negsuc 7, 8) ∷ (pos 0x10, 4) ∷ [])
unfolding sniff_stack_var_sizes sniff_loop sniff_at operand_prefix rex_prefix sniff_opcode is_rex
    opcode_shape sniff_operand is_rbp_disp8 emplace to_i8 has_rex_w
movs_run = refl

sniff_stack_var_sizes-HasWidths_example :
    Returns HasWidths (sniff_stack_var_sizes (encode_all movs []))
sniff_stack_var_sizes-HasWidths_example = sniff_stack_var_sizes-HasWidths (encode_all movs [])

sniff_stack_var_sizes-encode_all_example :
    (r : Sizes) × (sniff_stack_var_sizes (encode_all movs []) ≡ some r)
    × ((d : ℤ) → find d r ≡ first_width d movs)
sniff_stack_var_sizes-encode_all_example =
    sniff_stack_var_sizes-encode_all movs (omega arith) (ground arith)

-- Two thunks at 0x402000, to the methods at 0x401000 and 0x401100.
abbrev thunks : List Thunk
thunks =
    (record { adj = 0xF8; r0 = 0xF7; r1 = 0xEF; r2 = 0xFF; r3 = 0xFF })
    ∷ (record { adj = 0xF0; r0 = 0xEE; r1 = 0xF0; r2 = 0xFF; r3 = 0xFF })
    ∷ []

abbrev code_section : Section
code_section = record { va = 0x2000; size = 18; file_off = 2; segment = 1 }

abbrev image : Bytes
image =
    0 ∷ 0 ∷ 0x48 ∷ 0x83 ∷ 0xC1 ∷ 0xF8 ∷ 0xE9 ∷ 0xF7 ∷ 0xEF ∷ 0xFF ∷ 0xFF ∷ 0x48 ∷ 0x83 ∷ 0xC1 ∷ 0xF0
    ∷ 0xE9 ∷ 0xEE ∷ 0xF0 ∷ 0xFF ∷ 0xFF ∷ 0xCC ∷ []

scan_section-encode_all_example :
    scan_section image 0x400000 code_section []
    ≡ some (
        (record {
          va = 0x402000;
          target_va = 0x401000;
          adjustment = negsuc 7;
          segment = 1;
          section_off = 0;
        })
        ∷ (record {
          va = 0x402009;
          target_va = 0x401100;
          adjustment = negsuc 15;
          segment = 1;
          section_off = 9;
        })
        ∷ [])
unfolding ◌+ℤ◌ to_i8 to_i32 or32
scan_section-encode_all_example =
    scan_section-encode_all image 0x400000 code_section thunks [] (0xCC ∷ []) (omega arith) refl
      refl (omega arith) (omega arith) (omega arith)

scan_adjuster_thunks-Chains_example :
    Returns
      (Chains image 0x400000 ((0x2000, 18) ∷ []) ((2, 1) ∷ []))
      (scan_adjuster_thunks image ((0x2000, 18) ∷ []) ((2, 1) ∷ []) 0x400000)
scan_adjuster_thunks-Chains_example =
    scan_adjuster_thunks-Chains image ((0x2000, 18) ∷ []) ((2, 1) ∷ []) 0x400000 (omega arith)
      (omega arith)
