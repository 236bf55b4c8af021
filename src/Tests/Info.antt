-- ===== src/Tests/Info.antt =====
-- src/dwarf/dwarf_emitter.cpp on a unit with a function, a variable and an array of numbers.
use vscode_delphi_extension.Base.{
  zero, suc, false, leb, ◌≡◌, [], ◌∷◌, pos, negsuc, codes, arith, Returns, All, ◌<◌, ◌≤◌,
}
use vscode_delphi_extension.Model.{
  LineEntry, CompileUnit, Module, Symbol, SymbolKind, primitive_type, array_type, int32, get_type,
}
use vscode_delphi_extension.Dwarf.Info.{InfoCodes, cu_range, symbol_end}
use vscode_delphi_extension.Dwarf.Info.Ranges.{Covers, cu_range-Covers, symbol_end-Separates}
use vscode_delphi_extension.Dwarf.Info.Unit.{write_compile_unit, emit}
use vscode_delphi_extension.Dwarf.Info.TypesWritten.{HasArrays}
use vscode_delphi_extension.Dwarf.Info.UnitRead.{IsUnit, UnitShown}
use vscode_delphi_extension.Dwarf.Info.UnitWritten.{write_compile_unit-UnitShown}
use vscode_delphi_extension.Dwarf.Info.Sections.{IsEmitted, emit-IsEmitted}
use vscode_delphi_extension.Dwarf.Reader.Forms.{AreInfoCodes, sleb_loop-sleb_bytes}
use vscode_delphi_extension.Dwarf.BytesBuf.{sleb_loop}
use vscode_delphi_extension.Dwarf.Info.Symbols.{sleb_bytes}
use vscode_delphi_extension.Dwarf.LineProgram.Program.{ascending_one, fit_nil, fit_cons}
use vscode_delphi_extension.Tests.Dwarf.{
  codes_of_dwarf, codes_of_dwarf-AreLineCodes, names_of_dwarf, names_of_dwarf-AreAbbrevCodes,
}

-- The other codes of the standard.
abbrev entries_of_dwarf : InfoCodes
entries_of_dwarf = record {
  ut_compile = 1;
  lang_pascal83 = 0x0009;
  op_addr = 0x03;
  op_breg6 = 0x76;
  op_fbreg = 0x91;
  ate_address = 0x01;
  ate_boolean = 0x02;
  ate_float = 0x04;
  ate_signed = 0x05;
  ate_unsigned = 0x07;
  ate_unsigned_char = 0x08;
  ate_utf = 0x10;
}

entries_of_dwarf-AreInfoCodes : AreInfoCodes names_of_dwarf entries_of_dwarf
entries_of_dwarf-AreInfoCodes = record {
  forms = ground arith;
  operations = ground arith;
  operations_fit = ground arith;
  encodings_fit = ground arith;
  unit_fits = ground arith;
  children_differ = ground arith;
}

abbrev proc : Symbol
proc = record {
  name = codes "Run";
  address = 0x401000;
  size = 0;
  type = 0;
  kind = SymbolKind.function;
  params = (record { name = codes "n"; type = 1; stack_offset = pos 16 }) ∷ [];
  locals = (record { name = codes "a"; type = 2; stack_offset = negsuc 39 }) ∷ [];
}

abbrev global : Symbol
global = record {
  name = codes "Total";
  address = 0x402000;
  size = 4;
  type = 1;
  kind = SymbolKind.variable;
  params = [];
  locals = [];
}

abbrev shown_unit : CompileUnit
shown_unit = record {
  source_path = codes "C:\\src\\Unit1.pas";
  symbols = proc ∷ global ∷ [];
  lines = (record { address = 0x401000; file_id = 0; line = 12 }) ∷ [];
}

abbrev program : Module
program = record {
  units = shown_unit ∷ [];
  source_files = [];
  types = primitive_type int32 ∷ array_type 1 10 ∷ [];
}

program-HasArrays : HasArrays program
unfolding get_type
program-HasArrays zero element len e = absurd (cc e)
program-HasArrays (suc zero) element len e = absurd (cc e)
program-HasArrays (suc (suc zero)) element len e = ground arith
program-HasArrays (suc (suc (suc n))) element len e =
    let outside : leb (suc (suc (suc n))) 2 ≡ false = ground arith in
    absurd (ground (arith, outside))

shown_unit-IsUnit : IsUnit program shown_unit
shown_unit-IsUnit = record {
  path_is = ground arith;
  lines_fit = ground arith;
  symbols_are = (
    record {
      name_is = ground arith;
      address_fits = omega arith;
      params_are = ground arith;
      locals_are = ground arith;
    },
    (
      record {
        name_is = ground arith;
        address_fits = omega arith;
        params_are = tt;
        locals_are = tt;
      },
      tt,
    ),
  );
  types_are = (
    record { type_is = omega arith; params_are = ground arith; locals_are = ground arith },
    (record { type_is = omega arith; params_are = tt; locals_are = tt }, tt),
  );
}

write_compile_unit-UnitShown_example :
    Returns
      (UnitShown names_of_dwarf entries_of_dwarf entries_of_dwarf-AreInfoCodes program
        (7 ∷ [])
        shown_unit
        (codes "rsm2pdb")
        0
        0)
      (write_compile_unit entries_of_dwarf (7 ∷ []) program shown_unit (codes "rsm2pdb") 0 0)
write_compile_unit-UnitShown_example =
    write_compile_unit-UnitShown names_of_dwarf entries_of_dwarf entries_of_dwarf-AreInfoCodes
      program (7 ∷ []) shown_unit (codes "rsm2pdb") 0 0 shown_unit-IsUnit program-HasArrays
      (ground arith) (omega arith)

emit-IsEmitted_example :
    Returns
      (IsEmitted names_of_dwarf entries_of_dwarf codes_of_dwarf
        (λ les. les)
        entries_of_dwarf-AreInfoCodes
        program
        (codes "rsm2pdb"))
      (emit names_of_dwarf entries_of_dwarf codes_of_dwarf (λ les. les) program (codes "rsm2pdb"))
emit-IsEmitted_example =
    emit-IsEmitted names_of_dwarf entries_of_dwarf codes_of_dwarf (λ les. les)
      entries_of_dwarf-AreInfoCodes program (codes "rsm2pdb") codes_of_dwarf-AreLineCodes
      names_of_dwarf-AreAbbrevCodes program-HasArrays (ground arith)
      (
        (record {
          unit_is = shown_unit-IsUnit;
          ascending = ascending_one;
          fit = fit_cons (omega arith) (omega arith) fit_nil;
        }),
        tt,
      )

sleb_loop-sleb_bytes_example : sleb_loop 10 (7 ∷ []) (negsuc 39) ≡ 7 ∷ sleb_bytes 10 (negsuc 39)
sleb_loop-sleb_bytes_example = sleb_loop-sleb_bytes 10 (7 ∷ []) (negsuc 39)

cu_range-Covers_example :
    All (λ (le : LineEntry). Covers (cu_range shown_unit) le.address) shown_unit.lines
    × All
        (λ (y : Symbol). y.kind ≡ SymbolKind.function → Covers (cu_range shown_unit) y.address)
        shown_unit.symbols
cu_range-Covers_example = cu_range-Covers shown_unit

symbol_end-Separates_example :
    (0x401000 < symbol_end shown_unit proc 0x403000)
    × All
        (λ (t : Symbol). 0x401000 < t.address → symbol_end shown_unit proc 0x403000 ≤ t.address)
        shown_unit.symbols
symbol_end-Separates_example = symbol_end-Separates shown_unit proc 0x403000 (omega arith)
