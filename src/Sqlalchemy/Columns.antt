-- ===== src/Sqlalchemy/Columns.antt =====
-- sqlalchemy/types.py, the column types that CrateDB adds, and the expressions that are made of their
-- columns; sqlalchemy/compiler.py prints the expressions.
pub mod Paths
use crate_python.Sqlalchemy.Compiler.{Value, plain, tracked}
use crate_python.Sqlalchemy.Types.{MutableDict, make_dict}
use crate_python.Prelude.Dict.{Dict}
use crate_python.Prelude.{[], ◌∷◌, List, Text, str, some, Option}
use crate_python.Exceptions.{Exn, builtin_error, type_error}
use crate_python.Exec.{Result, ok, err}
use crate_python.Json
use crate_python.Json.{Json, Fields, end, field}
use crate_python.Sqlalchemy.Statements.{visit_getitem_binary, visit_any}

-- `Object`, `ObjectArray`, `Geopoint` and `Geoshape`
pub data CrateType : Type 0 where
  object object_array geopoint geoshape : CrateType

-- `get_col_spec` of each
unfoldable pub get_col_spec : CrateType → Text
get_col_spec object = str "OBJECT"
get_col_spec object_array = str "ARRAY(OBJECT)"
get_col_spec geopoint = str "GEO_POINT"
get_col_spec geoshape = str "GEO_SHAPE"

-- An expression: one that SQLAlchemy compiles, as it is compiled; an item of an expression; or `Any`
-- with its left and right side and the text of its operator.
pub data Expression : Type 0 where
  compiled : Text → Expression
  item : Expression → Text → Expression
  any_of : Expression → Expression → Text → Expression

-- `Comparator.__getitem__`, the same for the four types
abbrev pub get_item : Expression → Text → Expression
get_item expr key = item expr key

-- `_ObjectArray.Comparator.any`: the array goes to the right.
unfoldable pub any : Expression → Expression → Text → Expression
any expr other operator = any_of other expr operator

-- How the compiler prints an expression: `process` calls the method for its kind.
unfoldable pub process : Expression → Text
process (compiled t) = t
process (item left key) = visit_getitem_binary (process left) key
process (any_of left right operator) = visit_any (process left) operator (process right)

-- A value that is bound to a `Geopoint` column.
pub data Located : Type 0 where
  point : List Json → Located
  other : Json → Located

-- `Geopoint.bind_processor`
unfoldable pub geopoint_bind : Located → Json
geopoint_bind (point coordinates) = Json.arr (Json.items coordinates)
geopoint_bind (other v) = v

pub not_iterable : Exn
not_iterable = builtin_error type_error (str "object is not iterable")

characters : Text → List Json
characters [] = []
characters (c ∷ s) = Json.text (c ∷ []) ∷ characters s

field_keys : Fields → List Json
field_keys end = []
field_keys (field k v fs) = Json.text k ∷ field_keys fs

-- `Geopoint.result_processor`, which is Python's `tuple`
unfoldable pub geopoint_result : Json → Result (List Json)
unfolding not_iterable characters field_keys
geopoint_result (Json.arr vs) = ok (Json.of_items vs)
geopoint_result (Json.text s) = ok (characters s)
geopoint_result (Json.obj fs) = ok (field_keys fs)
geopoint_result _ = err not_iterable

entries : Fields → Dict Json
entries end = []
entries (field k v fs) = (k, v) ∷ entries fs

-- `MutableDict.coerce`. `base` is SQLAlchemy's `Mutable.coerce`, for what is no dictionary.
unfoldable pub coerce_dict :
    (Text → Json → Result (Option MutableDict)) → Text → Value → Result (Option MutableDict)
unfolding entries
coerce_dict base key (tracked d) = ok (some d)
coerce_dict base key (plain (Json.obj fs)) = ok (some (make_dict (entries fs)))
coerce_dict base key (plain v) = base key v
