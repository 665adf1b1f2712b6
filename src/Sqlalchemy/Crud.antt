-- ===== src/Sqlalchemy/Crud.antt =====
-- sqlalchemy/compiler.py, `_get_crud_params` and `crate_before_execute`: what is done to a statement
-- before its text is put together.
pub mod Required
pub mod Whole
use crate_python.Prelude.{
  none, some, [], ◌∷◌, not, Option, List, Text, str, Bool, if◌then◌else◌, true, false, ◌&&◌,
}
use crate_python.Prelude.Dict.{Dict, has_key, insert}
use crate_python.Exceptions.{builtin_error, index_error}
use crate_python.Exec.{Exec, ◌>>=◌, ◌>>◌, pure, raise, modify, gets}
use crate_python.Sqlalchemy.Compiler.{Value, rewrite_update}
use crate_python.Sqlalchemy.Statements.{CrudParams, Rows, one_row, many_rows}

-- The attributes of the compiler that `_get_crud_params` sets or reads.
pub record CompilerState : Type 0 where
  pub column_keys : Option (List Text)
  pub postfetch : List Text
  pub insert_prefetch : List Text
  pub update_prefetch : List Text
  pub returning : List Text

-- `stmt.parameters`: one set of parameters, or many (`_has_multi_parameters`)
pub data Parameters : Type 0 where
  single : Dict Value → Parameters
  multi : List (Dict Value) → Parameters

pub record Statement : Type 0 where
  pub columns : List Text
  pub parameters : Option Parameters

-- The functions of SQLAlchemy's module `crud`, with the values `P` of its parameters, among them
-- `REQUIRED`.
pub record CrudModule (P : Type 0) : Type 0 where
  pub required : P
  pub column_as_key : Text → Text
  pub create_bind_param : Text → Exec CompilerState Text
  pub get_stmt_parameters_params :
      Dict P → Dict Value → CrudParams → Exec CompilerState (Dict P × CrudParams)
  pub scan_cols : Dict P → CrudParams → Exec CompilerState CrudParams
  pub extend_values : CrudParams → Exec CompilerState (List CrudParams)

-- `stmt_parameters`
stmt_parameters : Option Parameters → Exec CompilerState (Option (Dict Value))
stmt_parameters none = pure none
stmt_parameters (some (single d)) = pure (some d)
stmt_parameters (some (multi (d ∷ ds))) = pure (some d)
stmt_parameters (some (multi [])) =
    raise (builtin_error index_error (str "list index out of range"))

-- `not stmt_parameters or key not in stmt_parameters`
unfoldable pub is_missing : Text → Option (Dict Value) → Bool
is_missing key none = true
is_missing key (some d) = not (has_key key d)

module _ {P : Type 0} (crud : CrudModule P) where
  -- `dict((_column_as_key(key), crud.REQUIRED) for key in … if …)`
  unfoldable pub add_required : List Text → Option (Dict Value) → Dict P → Dict P
  add_required [] given parameters = parameters
  add_required (key ∷ keys) given parameters = add_required keys given (
      if is_missing key given
      then insert (crud.column_as_key key) crud.required parameters
      else parameters)

  unfoldable pub required_of : Option (List Text) → Option (Dict Value) → Dict P
  required_of none given = []
  required_of (some keys) given = add_required keys given []

  bind_all : List Text → Exec CompilerState CrudParams
  bind_all [] = pure []
  bind_all (c ∷ columns) = do
    bound ← crud.create_bind_param c
    rest ← bind_all columns
    pure ((c, bound) ∷ rest)

  assign_given : Option (Dict Value) → Dict P → Exec CompilerState (Dict P × CrudParams)
  assign_given none parameters = pure (parameters, [])
  assign_given (some d) parameters = crud.get_stmt_parameters_params parameters d []

  crud_rows : Option Parameters → CrudParams → Exec CompilerState Rows
  crud_rows (some (multi ds)) values = do rows ← crud.extend_values values; pure (many_rows rows)
  crud_rows _ values = pure (one_row values)

  -- "no parameters in the statement, no parameters in the compiled params"
  abbrev no_parameters : Option (List Text) → Option Parameters → Bool
  no_parameters none none = true
  no_parameters _ _ = false

  -- The rest of `_get_crud_params`, where there are parameters
  from_parameters : Option (List Text) → Option Parameters → Exec CompilerState Rows
  unfolding stmt_parameters assign_given crud_rows
  from_parameters column_keys parameters = do
    given ← stmt_parameters parameters
    assigned ← assign_given given (required_of column_keys given)
    values ← crud.scan_cols assigned.0 assigned.1
    crud_rows parameters values

  all_columns : List Text → Exec CompilerState Rows
  unfolding bind_all
  all_columns columns = do params ← bind_all columns; pure (one_row params)

  -- `_get_crud_params`
  unfoldable pub get_crud_params : Statement → Exec CompilerState Rows
  unfolding from_parameters all_columns
  get_crud_params stmt = do
    modify (λ c. record c {
      postfetch = [];
      insert_prefetch = [];
      update_prefetch = [];
      returning = [];
    })
    column_keys ← gets (λ c. c.column_keys)
    if no_parameters column_keys stmt.parameters
        then all_columns stmt.columns
        else from_parameters column_keys stmt.parameters

-- A statement that is executed: its sets of parameters (`multiparams[0]`), a list of dictionaries as
-- SQLAlchemy's ORM passes it, and what `rewrite_update` gives the clause. An empty tuple `multiparams`
-- raises IndexError, and a single dictionary in the place of the list AttributeError.
pub record Execution : Type 0 where
  pub multiparams : List (Dict Value)
  pub values : Option (Dict Value)
  pub crate_specific : Bool

first_of_all : List (Dict Value) → Option (Dict Value)
first_of_all [] = none
first_of_all (d ∷ ds) = some d

-- `rewrite_update`, with the clause
unfoldable pub rewrite_clause : Execution → Execution
unfolding first_of_all
rewrite_clause e = elim e.multiparams [
  | [] ↦ e
  | d ∷ ds ↦ record {
    multiparams = rewrite_update (d ∷ ds);
    values = first_of_all (rewrite_update (d ∷ ds));
    crate_specific = true;
  }
]

-- `crate_before_execute`, for a dialect that is CrateDB's or not, and a clause that is an UPDATE or not.
unfoldable pub crate_before_execute : Bool → Bool → Execution → Execution
crate_before_execute is_crate is_update e = if is_crate && is_update then rewrite_clause e else e
