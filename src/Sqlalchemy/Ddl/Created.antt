-- ===== src/Sqlalchemy/Ddl/Created.antt =====
-- The end of a CREATE TABLE statement.
use crate_python.Prelude.Dict.{Dict, lookup}
use crate_python.Prelude.{refl, none, some, [], Text, text_eq, Option, str, ◌≡◌, ◌++◌}
use crate_python.Sqlalchemy.Ddl.Options.{
  special-add_options, clustered-add_options, table_opts-add_options, crate_opts-NodupKeys,
  add_options-AreClustered, with_clustered_lem, chosen, partitioned_clause, other_options,
  clustered_clause,
}
use crate_python.Sqlalchemy.Ddl.{
  Clauses, post_create_table, crate_opts, partitioned_by, clustered_by, number_of_shards, by_column,
  shards, with_table_opts, add_options,
}

abbrev pub option_map : (Text → Text) → Option Text → Option Text
option_map f none = none
option_map f (some v) = some (f v)

chosen-clustered_by : (o : Option Text) → chosen clustered_by o none ≡ option_map by_column o
unfolding text_eq str
chosen-clustered_by none = refl
chosen-clustered_by (some v) = refl

chosen-number_of_shards : (o : Option Text) → chosen number_of_shards o none ≡ option_map shards o
unfolding text_eq str
chosen-number_of_shards none = refl
chosen-number_of_shards (some v) = refl

abbrev no_clauses : Clauses
no_clauses = record { special_options = []; clustered_options = []; table_opts = [] }

-- A CREATE TABLE statement ends with a PARTITIONED BY clause if the table has that option; then with
-- CLUSTERED and the column and the number of shards, as far as they are given; then with WITH and the
-- other options, sorted.
pub post_create_table_lem :
    (kwargs : Dict Text)
    → post_create_table kwargs
      ≡ (partitioned_clause (lookup partitioned_by (crate_opts kwargs []))
          ++ clustered_clause
              (option_map by_column (lookup clustered_by (crate_opts kwargs [])))
              (option_map shards (lookup number_of_shards (crate_opts kwargs []))))
        ++ with_table_opts (other_options (crate_opts kwargs []))
unfolding post_create_table text_eq str lookup
post_create_table_lem kwargs =
    let opts = crate_opts kwargs [] in
    let distinct = crate_opts-NodupKeys kwargs [] tt in
    rw
      (
        special-add_options opts no_clauses distinct,
        with_clustered_lem (add_options opts no_clauses).clustered_options
            (add_options-AreClustered opts no_clauses tt),
        clustered-add_options clustered_by opts no_clauses refl distinct,
        clustered-add_options number_of_shards opts no_clauses refl distinct,
        table_opts-add_options opts no_clauses,
        chosen-clustered_by (lookup clustered_by opts),
        chosen-number_of_shards (lookup number_of_shards opts),
      )
      refl
