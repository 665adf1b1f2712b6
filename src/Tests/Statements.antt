-- ===== src/Tests/Statements.antt =====
-- Statements as they are put together.
use crate_python.Sqlalchemy.Predicates.{sorted, insert_sorted}
use crate_python.Prelude.Dict.{insert}
use crate_python.Prelude.{starts_with, text_lt}
use crate_python.Sqlalchemy.Predicates.{sorted, insert_sorted}
use crate_python.Sqlalchemy.Ddl.Created.{option_map, post_create_table_lem}
use crate_python.Exec.{ok}
use crate_python.Sqlalchemy.Ddl.Options.{partitioned_clause, clustered_clause, other_options}
use crate_python.Prelude.Int.{pos}
use crate_python.Prelude.Dict.{Dict, lookup, insert}
use crate_python.Prelude.{
  refl, none, some, true, false, [], Text, str, ◌≡◌, ◌∷◌, ◌++◌, text_eq, join, starts_with, text_lt,
}
use crate_python.Sqlalchemy.Statements.{
  visit_update, visit_insert, Features, one_row, subscript_clauses, has_bracket, crud_clauses,
  in_parens, columns_of, values_of,
}
use crate_python.Sqlalchemy.Compiler.{Value, plain, tracked}
use crate_python.Sqlalchemy.Types.{MutableDict}
use crate_python.Sqlalchemy.Ddl.{
  post_create_table, compile_type, crate_opts, add_option, with_clustered, with_table_opts, SqlType,
  partitioned_by, no_multidimensional, by_column, clustered_by, shards, number_of_shards,
}
use crate_python.Sqlalchemy.Ddl
use crate_python.Json.{Json}

abbrev features : Features
features = record {
  supports_default_values = false;
  supports_empty_insert = true;
  supports_multivalues_insert = false;
  returning_precedes_values = false;
}

abbrev bind : Text → Value → Text
bind k v = str "?"

abbrev details : MutableDict
details = record {
  items = (str "size", Json.num (pos 3)) ∷ (str "name", Json.null) ∷ [];
  changed_keys = str "size" ∷ [];
  deleted_keys = str "old" ∷ [];
}

abbrev params : Dict Value
params = (str "id", plain (Json.num (pos 1))) ∷ (str "details", tracked details) ∷ []

visit_insert_test :
    visit_insert features (record {
      prefixes = [];
      table = str "t";
      rows = one_row ((str "a", str "?") ∷ (str "b", str "?") ∷ []);
      select = none;
      returning = none;
    })
    ≡ ok (str "INSERT INTO t (a, b) VALUES (?, ?)")
unfolding visit_insert str in_parens join columns_of values_of
visit_insert_test = refl

visit_update_test :
    visit_update features bind (record {
      prefixes = [];
      table = str "t";
      crud_params = (str "a", str "?") ∷ [];
      parameters = (str "a", plain Json.null) ∷ (str "d['x']", plain Json.null) ∷ [];
      returning = none;
      extra_from = none;
      whereclause = some (str "id = ?");
      limit_clause = none;
    })
    ≡ str "UPDATE t SET a = ?, d['x'] = ? WHERE id = ?"
unfolding visit_update str join crud_clauses subscript_clauses has_bracket
visit_update_test = refl

post_create_table_test :
    post_create_table (
      (str "crate_number_of_shards", str "3")
      ∷ (str "crate_zeta", str "1")
      ∷ (str "crate_clustered_by", str "id")
      ∷ (str "other_x", str "y")
      ∷ (str "crate_partitioned_by", str "day")
      ∷ (str "crate_alpha", str "2")
      ∷ [])
    ≡ str " PARTITIONED BY (day) CLUSTERED BY (id) INTO 3 SHARDS WITH (ALPHA = 2, ZETA = 1)"
unfolding post_create_table str Ddl.add_options crate_opts starts_with insert text_eq Ddl.upper
    add_option with_clustered lookup with_table_opts join sorted insert_sorted text_lt
post_create_table_test = refl

abbrev table_kwargs : Dict Text
table_kwargs = (str "crate_number_of_shards", str "3") ∷ []

post_create_table_lem_example :
    post_create_table table_kwargs
    ≡ (partitioned_clause (lookup partitioned_by (crate_opts table_kwargs []))
        ++ clustered_clause
            (option_map by_column (lookup clustered_by (crate_opts table_kwargs [])))
            (option_map shards (lookup number_of_shards (crate_opts table_kwargs []))))
      ++ with_table_opts (other_options (crate_opts table_kwargs []))
post_create_table_lem_example = post_create_table_lem table_kwargs

abbrev matrix : SqlType
matrix = Ddl.array (some 2) Ddl.string
