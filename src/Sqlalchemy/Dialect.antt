-- ===== src/Sqlalchemy/Dialect.antt =====
-- sqlalchemy/dialect.py, `CrateDialect`: what the dialect asks of the server, and what it makes of the
-- rows, for the version that it found. `execute` is the connection's: a statement, with its
-- parameters, to its rows.
pub mod Keys
pub mod Listed
use crate_python.Http.Url
use crate_python.Http.Url.{Servers, one_text}
use crate_python.Exceptions.{builtin_error, index_error, Exn}
use crate_python.Exec.{Exec, Result, ◌>>=◌, ok, lift, pure, err, on_ok}
use crate_python.Prelude.Dict.{Dict, lookup}
use crate_python.Version.{Version}
use crate_python.Prelude.{
  none, some, true, false, [], ℕ, Bool, Text, Option, str, List, text_lt, if◌then◌else◌, ◌∷◌, ◌++◌,
  not, text_eq, ◌||◌, contains,
}

-- `server_version_info`: a tuple of three numbers, compared in order.
abbrev pub VersionInfo : Type 0
VersionInfo = ℕ × ℕ × ℕ

-- `a < b`
unfoldable pub info_lt : VersionInfo → VersionInfo → Bool
info_lt (a, b, c) (d, e, f) = text_lt (a ∷ b ∷ c ∷ []) (d ∷ e ∷ f ∷ [])

abbrev schema_min_version : VersionInfo
schema_min_version = (0, 57, 0)

abbrev table_type_min_version : VersionInfo
table_type_min_version = (2, 0, 0)

-- `_get_server_version_info`: the three numbers of the connection's lowest version
unfoldable pub version_info : Version → VersionInfo
version_info v = (v.major, v.minor, v.patch)

-- `_get_default_schema_name`
abbrev pub default_schema_name : Text
default_schema_name = str "doc"

-- `initialize`, by the connection's lowest version
abbrev pub initialize : Version → VersionInfo × Text
unfolding version_info
initialize v = (version_info v, default_schema_name)

-- `get_foreign_keys` and `get_indexes`, of any table: CrateDB has neither.
abbrev pub get_foreign_keys : Text → List Text
get_foreign_keys table = []

abbrev pub get_indexes : Text → List Text
get_indexes table = []

unfoldable pub schema_column : VersionInfo → Text
schema_column info =
    if not (info_lt info schema_min_version) then str "table_schema" else str "schema_name"

-- A statement with its parameters.
pub record Query : Type 0 where
  pub text : Text
  pub params : List Text

-- `schema or self.default_schema_name`
abbrev pub or_default : Option Text → Text
or_default none = default_schema_name
or_default (some []) = default_schema_name
or_default (some (c ∷ s)) = c ∷ s

abbrev table_filter : VersionInfo → Text
table_filter info =
    if not (info_lt info table_type_min_version) then str "AND table_type = 'BASE TABLE' " else []

abbrev schema_names_query : Query
schema_names_query = record {
  text = str "select schema_name from information_schema.schemata order by schema_name asc";
  params = [];
}

unfoldable pub table_names_query : VersionInfo → Option Text → Query
table_names_query info schema = record {
  text =
      str "SELECT table_name FROM information_schema.tables WHERE "
      ++ (schema_column info
          ++ (str " = ? "
              ++ (table_filter info
                  ++ (str "ORDER BY table_name ASC, " ++ (schema_column info ++ str " ASC")))));
  params = or_default schema ∷ [];
}

unfoldable pub columns_query : VersionInfo → Text → Option Text → Query
columns_query info table schema = record {
  text =
      str "SELECT column_name, data_type FROM information_schema.columns WHERE table_name = ? AND "
      ++ (schema_column info ++ str " = ? AND column_name !~ ?");
  params = table ∷ or_default schema ∷ str "(.*)\\[\\'(.*)\\'\\]" ∷ [];
}

-- `row[0]`, of rows of texts
first_column : List (List Text) → Result (List Text)
first_column [] = ok []
first_column ([] ∷ rows) = err (builtin_error index_error (str "list index out of range"))
first_column ((t ∷ ts) ∷ rows) = on_ok (first_column rows) (λ rest. ok (t ∷ rest))

-- The types that `TYPES_MAP` names; any other is a `UserDefinedType`.
pub data ScalarType : Type 0 where
  boolean small_integer timestamp integer numeric decimal float string : ScalarType

pub data ColumnType : Type 0 where
  scalar array_of : ScalarType → ColumnType
  object object_array user_defined : ColumnType

abbrev scalar_types : Dict ScalarType
scalar_types =
    (str "boolean", boolean)
    ∷ (str "short", small_integer)
    ∷ (str "smallint", small_integer)
    ∷ (str "timestamp", timestamp)
    ∷ (str "timestamp with time zone", timestamp)
    ∷ (str "integer", integer)
    ∷ (str "long", numeric)
    ∷ (str "bigint", numeric)
    ∷ (str "double", decimal)
    ∷ (str "double precision", decimal)
    ∷ (str "float", float)
    ∷ (str "real", float)
    ∷ (str "string", string)
    ∷ (str "text", string)
    ∷ []

abbrev arrays_of : Dict ScalarType → Dict ColumnType
arrays_of [] = []
arrays_of ((name, t) ∷ rest) = (name ++ str "_array", array_of t) ∷ arrays_of rest

abbrev scalars_of : Dict ScalarType → Dict ColumnType
scalars_of [] = []
scalars_of ((name, t) ∷ rest) = (name, scalar t) ∷ scalars_of rest

-- `TYPES_MAP`, with SQLAlchemy from 1.1 on
unfoldable pub types_map : Dict ColumnType
types_map =
    (str "object", object)
    ∷ (str "object_array", object_array)
    ∷ (scalars_of scalar_types ++ arrays_of scalar_types)

-- `_resolve_type`
unfoldable pub resolve_type : Text → ColumnType
resolve_type t = elim (lookup t types_map) [ none ↦ user_defined | some c ↦ c ]

pub record ColumnInfo : Type 0 where
  pub name : Text
  pub column_type : ColumnType
  pub nullable : Bool

-- `_create_column_info`, for each row
column_infos : List (List Text) → Result (List ColumnInfo)
column_infos [] = ok []
column_infos ((name ∷ t ∷ ts) ∷ rows) =
    on_ok (column_infos rows)
      (λ rest. ok (record { name = name; column_type = resolve_type t; nullable = true } ∷ rest))
column_infos (row ∷ rows) = err (builtin_error index_error (str "list index out of range"))

module _ {S : Type 0} (execute : Query → Exec S (List (List Text))) (info : VersionInfo) where
  unfoldable pub get_schema_names : Exec S (List Text)
  unfolding first_column
  get_schema_names = do rows ← execute schema_names_query; lift (first_column rows)

  unfoldable pub get_table_names : Option Text → Exec S (List Text)
  unfolding first_column
  get_table_names schema = do
    rows ← execute (table_names_query info schema)
    lift (first_column rows)

  unfoldable pub has_schema : Text → Exec S Bool
  unfolding contains
  has_schema schema = do names ← get_schema_names; pure (contains schema names)

  unfoldable pub has_table : Text → Option Text → Exec S Bool
  unfolding contains
  has_table table schema = do names ← get_table_names schema; pure (contains table names)

  unfoldable pub get_columns : Text → Option Text → Exec S (List ColumnInfo)
  unfolding column_infos
  get_columns table schema = do
    rows ← execute (columns_query info table schema)
    lift (column_infos rows)

-- `connect`: the servers that are handed on, of the keyword `servers` or else of host and port. A
-- port is given as it prints; an empty one counts as none, and so do empty servers.
unfoldable pub connect_servers : Option Text → Option Text → Option Servers → Option Servers
connect_servers host port (some (one_text [])) = none
connect_servers host port (some (Url.many [])) = none
connect_servers host port (some servers) = some servers
connect_servers (some (c ∷ h)) (some (p ∷ ps)) none = some (one_text ((c ∷ h) ++ (b':' ∷ (p ∷ ps))))
connect_servers (some (c ∷ h)) _ none = some (one_text ((c ∷ h) ++ str ":4200"))
connect_servers _ port none = none
