-- ===== src/Sqlalchemy/Ddl.antt =====
-- sqlalchemy/compiler.py, `CrateTypeCompiler` and `CrateDDLCompiler`, with the column specifications of
-- sqlalchemy/types.py: the text of a CREATE TABLE statement.
pub mod Created
pub mod Flat
pub mod Options
use crate_python.Prelude.{
  none, some, false, [], Option, Text, ℕ, List, Bool, str, ◌++◌, if◌then◌else◌, ◌∷◌, ltb, leb,
  starts_with, text_eq, join, ◌&&◌, ◌-◌,
}
use crate_python.Exceptions.{builtin_error, not_implemented_error, Exn}
use crate_python.Exec.{Result, ok, err, on_ok}
use crate_python.Prelude.{drop}
use crate_python.Prelude.Dict.{Dict, lookup, insert}
use crate_python.Sqlalchemy.Predicates.{sorted, pairs}

-- A type of a column, by the method that compiles it. `other` is a type that SQLAlchemy's own methods
-- compile, with the text that they give.
pub data SqlType : Type 0 where
  string unicode text decimal bigint numeric integer smallint datetime date : SqlType
  object object_array geopoint geoshape : SqlType
  array : Option ℕ → SqlType → SqlType
  other : Text → SqlType

-- `type_.dimensions is not None and type_.dimensions > 1`
abbrev pub is_multidimensional : Option ℕ → Bool
is_multidimensional none = false
is_multidimensional (some n) = ltb 1 n

abbrev pub no_multidimensional : Exn
no_multidimensional =
    builtin_error not_implemented_error (str "CrateDB doesn't support multidimensional arrays")

-- `process`, by `visit_…` and `get_col_spec`
unfoldable pub compile_type : SqlType → Result Text
compile_type string = ok (str "STRING")
compile_type unicode = ok (str "STRING")
compile_type text = ok (str "STRING")
compile_type decimal = ok (str "DOUBLE")
compile_type bigint = ok (str "LONG")
compile_type numeric = ok (str "LONG")
compile_type integer = ok (str "INT")
compile_type smallint = ok (str "SHORT")
compile_type datetime = ok (str "TIMESTAMP")
compile_type date = ok (str "TIMESTAMP")
compile_type object = ok (str "OBJECT")
compile_type object_array = ok (str "ARRAY(OBJECT)")
compile_type geopoint = ok (str "GEO_POINT")
compile_type geoshape = ok (str "GEO_SHAPE")
compile_type (array dimensions item_type) =
    let item = compile_type item_type in
    if is_multidimensional dimensions
    then err no_multidimensional
    else on_ok item (λ t. ok (str "ARRAY(" ++ (t ++ str ")")))
compile_type (other t) = ok t

-- `get_column_specification`, for a name that is formatted
unfoldable pub get_column_specification : Text → SqlType → Result Text
get_column_specification name t = on_ok (compile_type t) (λ spec. ok (name ++ (str " " ++ spec)))

-- `str.upper` on the ASCII letters
abbrev upper_char : ℕ → ℕ
upper_char c = if leb b'a' c && leb c b'z' then c - 32 else c

unfoldable pub upper : Text → Text
upper [] = []
upper (c ∷ s) = upper_char c ∷ upper s

-- `opts`: of the table's keyword arguments, those of this dialect, by their names without `crate_`. The
-- values are texts, as they are formatted.
unfoldable pub crate_opts : Dict Text → Dict Text → Dict Text
crate_opts [] opts = opts
crate_opts ((k, v) ∷ kwargs) opts =
    crate_opts kwargs
      (if starts_with k (str "crate_") then insert (upper (drop 6 k)) v opts else opts)

-- What the loop over `opts` has put together.
pub record Clauses : Type 0 where
  pub special_options : Text
  pub clustered_options : Dict Text
  pub table_opts : List Text

abbrev pub partitioned_by : Text
partitioned_by = str "PARTITIONED_BY"

abbrev pub number_of_shards : Text
number_of_shards = str "NUMBER_OF_SHARDS"

abbrev pub clustered_by : Text
clustered_by = str "CLUSTERED_BY"

abbrev pub partitioned : Text → Text
partitioned v = str " PARTITIONED BY (" ++ (v ++ str ")")

abbrev pub shards : Text → Text
shards v = str " INTO " ++ (v ++ str " SHARDS")

abbrev pub by_column : Text → Text
by_column v = str " BY (" ++ (v ++ str ")")

unfoldable pub add_option : Text → Text → Clauses → Clauses
add_option k v c =
    if text_eq k partitioned_by
    then record c { special_options = c.special_options ++ partitioned v }
    else if text_eq k number_of_shards
    then record c { clustered_options = insert k (shards v) c.clustered_options }
    else if text_eq k clustered_by
    then record c { clustered_options = insert k (by_column v) c.clustered_options }
    else record c { table_opts = c.table_opts ++ ((k ++ (str " = " ++ v)) ∷ []) }

unfoldable pub add_options : Dict Text → Clauses → Clauses
add_options [] c = c
add_options ((k, v) ∷ opts) c = add_options opts (add_option k v c)

-- A key that a `defaultdict(str)` does not have
abbrev pub or_empty : Option Text → Text
or_empty none = []
or_empty (some t) = t

unfoldable pub with_clustered : Dict Text → Text
with_clustered [] = []
with_clustered (entry ∷ entries) =
    str " CLUSTERED"
    ++ (or_empty (lookup clustered_by (entry ∷ entries))
        ++ or_empty (lookup number_of_shards (entry ∷ entries)))

unfoldable pub with_table_opts : List Text → Text
with_table_opts [] = []
with_table_opts (o ∷ opts) = str " WITH (" ++ (join (str ", ") (sorted (o ∷ opts)) ++ str ")")

unfoldable pub post_create_table : Dict Text → Text
post_create_table kwargs =
    let c =
      add_options (crate_opts kwargs [])
        (record { special_options = []; clustered_options = []; table_opts = [] }) in
    (c.special_options ++ with_clustered c.clustered_options) ++ with_table_opts c.table_opts
