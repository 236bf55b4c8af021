-- ===== src/Tests/Tables.antt =====
-- src/model and the search of src/rsm on small inputs.
use vscode_delphi_extension.Base.{◌≡◌, none, some, [], codes, arith}
use vscode_delphi_extension.Model.{Module, primitive_type, int32, add_type, get_type}
use vscode_delphi_extension.Model.Table.{get_type-add_type}
use vscode_delphi_extension.Rsm.Internal.{find_bytes}
use vscode_delphi_extension.Rsm.Internal.Search.{IsFirst, find_bytes-IsFirst}

abbrev no_types : Module
no_types = record { units = []; source_files = []; types = [] }

get_type-add_type_example :
    (get_type no_types (add_type no_types (primitive_type int32)).1 ≡ none)
    × (get_type
          (add_type no_types (primitive_type int32)).0
          (add_type no_types (primitive_type int32)).1
        ≡ some (primitive_type int32))
    × (get_type (add_type no_types (primitive_type int32)).0 0 ≡ get_type no_types 0)
get_type-add_type_example =
    get_type-add_type no_types (primitive_type int32) 0 (omega arith) (omega arith)

find_bytes-IsFirst_example :
    IsFirst (codes "xxabxab") 1 7 (codes "ab") (find_bytes (codes "xxabxab") 1 7 (codes "ab"))
find_bytes-IsFirst_example =
    find_bytes-IsFirst (codes "xxabxab") 1 7 (codes "ab") (ground arith) (omega arith)
