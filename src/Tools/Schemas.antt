-- ===== src/Tools/Schemas.antt =====
-- `coerce_json` of ml-scientist/src/ml_episteme_mcp/tools/schemas.py, at the types dict and list:
-- a parameter is taken as it is, or decoded from a text; `none` is the `ValueError`.
use labloop.Prelude.{Option, none, some}
use labloop.Json.{Json, Items, Fields, str, obj, arr, loads}

abbrev as_dict : Option Json → Option Fields
as_dict (some (obj d)) = some d
as_dict _ = none

abbrev as_list : Option Json → Option Items
as_list (some (arr xs)) = some xs
as_list _ = none

unfoldable pub coerce_dict : Json → Option Fields
coerce_dict (obj d) = some d
coerce_dict (str t) = as_dict (loads t)
coerce_dict _ = none

unfoldable pub coerce_list : Json → Option Items
coerce_list (arr xs) = some xs
coerce_list (str t) = as_list (loads t)
coerce_list _ = none
