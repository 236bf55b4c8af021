-- ===== src/Base/Text.antt =====
-- Text as the list of its bytes; every literal of the source is ASCII.
use Prim.Native.Char.{code}
use Prim.Native.String.{String}
use mathlib.Core.List.{[], ◌∷◌}
use vscode_delphi_extension.Base.Tests.{◌==◌}
use vscode_delphi_extension.Base.Words.{Bytes}
use vscode_delphi_extension.Base.Assoc.{beq_list}
use mathlib.Core.Bool.{Bool}

abbrev pub codes : String → Bytes
codes String.[] = []
codes (String.◌∷◌ c s) = code c ∷ codes s

abbrev pub beq_bytes : Bytes → Bytes → Bool
beq_bytes = beq_list ◌==◌
