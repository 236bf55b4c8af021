-- ===== src/Tests/Map.antt =====
-- A small map file, read and turned into the model.
use vscode_delphi_extension.Base.{ℕ, ◌≡◌, refl, List, [], ◌∷◌, Bytes, codes, arith, some}
use vscode_delphi_extension.Model.{Module}
use vscode_delphi_extension.Map.Types.{MapFile, no_file}
use vscode_delphi_extension.Map.Text.{tokenize}
use vscode_delphi_extension.Map.Text.Words.{tokenize-lay}
use vscode_delphi_extension.Map.Text.Lines.{join_lines}
use vscode_delphi_extension.Map.Numbers.{parse_seg_offset}
use vscode_delphi_extension.Map.Numbers.Numeral.{numeral, seg_offset, parse_seg_offset-seg_offset}
use vscode_delphi_extension.Map.Parser.{parse}
use vscode_delphi_extension.Map.Parser.Rows.{Shown, IsShown}
use vscode_delphi_extension.Map.Parser.Sections.{
  Section, IsSection, table, file_lines, parse-file_lines,
}
use vscode_delphi_extension.Map.Populate.{owner}
use vscode_delphi_extension.Map.Populate.Owner.{IsOwner, owner-IsOwner}

tokenize-lay_example : tokenize (codes "ab \t c ") ≡ codes "ab" ∷ codes "c" ∷ []
tokenize-lay_example =
    tokenize-lay (([], codes "ab") ∷ (codes " \t ", codes "c") ∷ []) (codes " ") (ground arith)
      (ground arith)

parse_seg_offset-seg_offset_example :
    parse_seg_offset (seg_offset 4 8 1 0x25900) ≡ some (1, 0x25900)
parse_seg_offset-seg_offset_example =
    parse_seg_offset-seg_offset 4 8 1 0x25900 (omega arith) (omega arith) (omega arith)
      (omega arith) (omega arith) (omega arith)

abbrev shown_at : ℕ → ℕ → Shown
shown_at line offset = record {
  gap = codes "    ";
  line_digits = 2;
  between = codes " ";
  segment_digits = 4;
  offset_digits = 8;
  shows = record { line = line; segment_id = 1; segment_offset = offset };
}

abbrev hello : Section
hello = record {
  names = record {
    module_name = codes "hello";
    source_path = codes "hello.dpr";
    segment_name = codes ".text";
    lines = [];
  };
  rows = (shown_at 24 0x25900 ∷ shown_at 25 0x2590E ∷ [], []) ∷ [];
}

entry-IsShown : IsShown (shown_at 24 0x25900)
entry-IsShown = record {
  gap_ne = ground arith;
  gap-IsGap = ground arith;
  between_ne = ground arith;
  between-IsGap = ground arith;
  counts = omega arith;
  line_fits = omega arith;
  segment_fits = omega arith;
  offset_fits = omega arith;
}

entry-IsShown_next : IsShown (shown_at 25 0x2590E)
entry-IsShown_next = record {
  gap_ne = ground arith;
  gap-IsGap = ground arith;
  between_ne = ground arith;
  between-IsGap = ground arith;
  counts = omega arith;
  line_fits = omega arith;
  segment_fits = omega arith;
  offset_fits = omega arith;
}

hello-IsSection : IsSection hello
unfolding numeral
hello-IsSection = record {
  named = record {
    module_is = ground arith;
    segment_is = ground arith;
    segment-IsWord = (ground arith, ground arith);
  };
  one_line = ground arith;
  some_rows = ground arith;
  rows-IsRow = (((entry-IsShown, (entry-IsShown_next, tt)), tt, ground arith, ground arith), tt);
}

parse-file_lines_example :
    parse (join_lines (file_lines (hello ∷ hello ∷ [])))
    ≡ record no_file { line_tables = table hello ∷ table hello ∷ [] }
parse-file_lines_example =
    parse-file_lines (hello ∷ hello ∷ []) (hello-IsSection, (hello-IsSection, tt))

abbrev names : List Bytes
names = codes "App" ∷ codes "App.Colors" ∷ []

owner-IsOwner_example :
    IsOwner names (codes "App.Colors.Name") 15 (owner names (codes "App.Colors.Name"))
owner-IsOwner_example = owner-IsOwner names (codes "App.Colors.Name")

owner_run : owner names (codes "App.Colors.Name") ≡ some (codes "App.Colors")
unfolding owner
owner_run = refl

abbrev file : MapFile
file = record no_file {
  line_tables = table hello ∷ table hello ∷ [];
  publics = (record { segment_id = 1; segment_offset = 0x25900; name = codes "hello.Add" }) ∷ [];
}

abbrev empty_module : Module
empty_module = record { units = []; source_files = []; types = [] }
