-- ===== src/Sqlalchemy/Statements.antt =====
-- sqlalchemy/compiler.py, `visit_insert` and `visit_update`, and the expressions of `CrateCompiler`: how
-- the texts are put together from what SQLAlchemy has compiled.
use crate_python.Prelude.{
  none, some, true, false, [], List, Bool, Text, str, if◌then◌else◌, Option, ◌++◌, ◌∷◌, not, ◌&&◌,
  join, ◌||◌, ◌==◌,
}
use crate_python.Exceptions.{Exn, builtin_error, not_implemented_error, index_error}
use crate_python.Exec.{Result, ok, err, on_ok}
use crate_python.Prelude.Dict.{Dict}
use crate_python.Sqlalchemy.Compiler.{Value}

-- Columns that are formatted, each with the text of its value.
abbrev pub CrudParams : Type 0
CrudParams = List (Text × Text)

-- What the statement has one or many of (`_has_multi_parameters`).
pub data Rows : Type 0 where
  one_row : CrudParams → Rows
  many_rows : List CrudParams → Rows

-- The attributes of the dialect and the compiler that the texts depend on.
pub record Features : Type 0 where
  pub supports_default_values : Bool
  pub supports_empty_insert : Bool
  pub supports_multivalues_insert : Bool
  pub returning_precedes_values : Bool

-- The parts of an INSERT: the prefixes and the table as they are formatted, hints included, the
-- compiled SELECT, and the RETURNING clause.
pub record Insert : Type 0 where
  pub prefixes : Text
  pub table : Text
  pub rows : Rows
  pub select : Option Text
  pub returning : Option Text

unfoldable pub columns_of : CrudParams → List Text
columns_of [] = []
columns_of ((column, value) ∷ params) = column ∷ columns_of params

unfoldable pub values_of : CrudParams → List Text
values_of [] = []
values_of ((column, value) ∷ params) = value ∷ values_of params

unfoldable pub in_parens : List Text → Text
in_parens ts = str "(" ++ (join (str ", ") ts ++ str ")")

unfoldable pub value_rows : List CrudParams → List Text
value_rows [] = []
value_rows (params ∷ rest) = in_parens (values_of params) ∷ value_rows rest

abbrev is_empty : {A : Type 0} → List A → Bool
is_empty [] = true
is_empty (x ∷ xs) = false

abbrev no_params : Rows → Bool
no_params (one_row params) = is_empty params
no_params (many_rows rows) = is_empty rows

abbrev no_empty_insert : Exn
no_empty_insert = builtin_error not_implemented_error (
    str
      "The 'crate' dialect with current database version settings does not support empty inserts.")

abbrev no_multirow_insert : Exn
no_multirow_insert = builtin_error not_implemented_error (
    str
      "The 'crate' dialect with current database version settings does not support in-place multirow inserts.")

-- `crud_params_single`
abbrev single_params : Features → Rows → Result CrudParams
single_params f (one_row params) = ok params
single_params f (many_rows rows) =
    if not f.supports_multivalues_insert then err no_multirow_insert else elim rows [
      | [] ↦ err (builtin_error index_error (str "list index out of range"))
      | params ∷ rest ↦ ok params
    ]

-- ` <clause>`, if there is one
abbrev pub with_blank : Option Text → Text
with_blank none = []
with_blank (some t) = str " " ++ t

abbrev values_clause : Features → Insert → Text
values_clause f i = elim i.select [
  | some select ↦ str " (" ++ (select ++ str ")")
  | none ↦
      if no_params i.rows && f.supports_default_values then str " DEFAULT VALUES" else elim i.rows [
        | many_rows rows ↦ str " VALUES " ++ join (str ", ") (value_rows rows)
        | one_row params ↦ str " VALUES " ++ in_parens (values_of params)
      ]
]

abbrev columns_clause : Features → CrudParams → Text
columns_clause f params =
    if not (is_empty params) || not f.supports_default_values
    then str " " ++ in_parens (columns_of params)
    else []

unfoldable pub visit_insert : Features → Insert → Result Text
visit_insert f i =
    if no_params i.rows && (not f.supports_default_values && not f.supports_empty_insert)
    then err no_empty_insert
    else on_ok (single_params f i.rows) (λ params. ok (
        str "INSERT "
        ++ (i.prefixes
            ++ (str "INTO "
                ++ (i.table
                    ++ (columns_clause f params
                        ++ ((if f.returning_precedes_values then with_blank i.returning else [])
                            ++ (values_clause f i
                                ++ (if f.returning_precedes_values
                                    then []
                                    else with_blank i.returning)))))))))

-- The parts of an UPDATE that goes through the dialect's own code.
pub record Update : Type 0 where
  pub prefixes : Text
  pub table : Text
  pub crud_params : CrudParams
  pub parameters : Dict Value
  pub returning : Option Text
  pub extra_from : Option Text
  pub whereclause : Option Text
  pub limit_clause : Option Text

-- `'[' in k`
unfoldable pub has_bracket : Text → Bool
has_bracket [] = false
has_bracket (c ∷ k) = c == b'[' || has_bracket k

abbrev pub equals : Text → Text → Text
equals k v = k ++ (str " = " ++ v)

unfoldable pub crud_clauses : CrudParams → List Text
crud_clauses [] = []
crud_clauses ((k, v) ∷ params) = equals k v ∷ crud_clauses params

-- The assignments to subscripts, which SQLAlchemy does not know as columns. `bind` compiles a bound
-- parameter by its name and value.
unfoldable pub subscript_clauses : (Text → Value → Text) → Dict Value → List Text
subscript_clauses bind [] = []
subscript_clauses bind ((k, v) ∷ params) =
    let rest = subscript_clauses bind params in
    if has_bracket k then equals k (bind k v) ∷ rest else rest

-- An empty text counts as no clause.
abbrev pub nonempty : Text → Option Text → Text
nonempty before none = []
nonempty before (some []) = []
nonempty before (some (c ∷ t)) = before ++ (c ∷ t)

unfoldable pub visit_update : Features → (Text → Value → Text) → Update → Text
visit_update f bind u =
    str "UPDATE "
    ++ (u.prefixes
        ++ (u.table
            ++ (str " SET "
                ++ (join (str ", ")
                      (crud_clauses u.crud_params ++ subscript_clauses bind u.parameters)
                    ++ ((if f.returning_precedes_values then with_blank u.returning else [])
                        ++ (nonempty (str " ") u.extra_from
                            ++ (nonempty (str " WHERE ") u.whereclause
                                ++ (nonempty (str " ") u.limit_clause
                                    ++ (if f.returning_precedes_values
                                        then []
                                        else with_blank u.returning)))))))))

-- `visit_getitem_binary`, of the left side as it is compiled and the value of the right side.
unfoldable pub visit_getitem_binary : Text → Text → Text
visit_getitem_binary left right = left ++ (str "['" ++ (right ++ str "']"))

-- `visit_any`, of two sides and the text of the operator.
unfoldable pub visit_any : Text → Text → Text → Text
visit_any left operator right = left ++ (operator ++ (str "ANY (" ++ (right ++ str ")")))

-- `returning_clause`, of the columns as they are formatted.
unfoldable pub returning_clause : List Text → Text
returning_clause columns = str "RETURNING " ++ join (str ", ") columns
