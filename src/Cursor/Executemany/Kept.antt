-- ===== src/Cursor/Executemany/Kept.antt =====
-- `executemany` keeps what the client's `sql` keeps.
use crate_python.Exec.Keeps.{Keeps, keeps_rules, Keeps-bind, Keeps-if, Keeps-pure}
use crate_python.Version.{Version}
use crate_python.Exec.{Exec}
use crate_python.Json.{Json, Fields}
use crate_python.Prelude.{[], List, ℕ, Option, ◌∷◌}
use crate_python.Cursor.Kept.{Good, set_cursor-Keeps, execute-Keeps}
use crate_python.Cursor.{Session, rowcount, duration}
use crate_python.Cursor
use crate_python.Cursor.Executemany.{
  reading, one_by_one, in_bulk, read_results, finish, executemany, current_result, has_bulk,
}

module _ {S : Type 0} (IsGood : S → Type 0) where
  reading-Keeps :
      (property : Cursor.Cursor → Json) (counts : List ℕ)
      → Keeps (Good IsGood) (reading {S = S} property counts)
  unfolding reading
  reading-Keeps property counts = search (keeps_rules) depth 12

  -- Each of the calls keeps the invariant.
  abbrev pub KeepAll : List (Exec S (Option Fields)) → Type 0
  KeepAll [] = Unit
  KeepAll (sql ∷ rest) = Keeps IsGood sql × KeepAll rest

  one_by_one-Keeps :
      (sqls : List (Exec S (Option Fields))) → KeepAll sqls → Keeps (Good IsGood) (one_by_one sqls)
  unfolding one_by_one
  one_by_one-Keeps [] k = search (keeps_rules)
  one_by_one-Keeps (sql ∷ rest) (k, ks) = Keeps-bind _ _ (execute-Keeps IsGood sql k) λ _.
      Keeps-bind _ _ (reading-Keeps rowcount []) λ counts.
        Keeps-bind _ _ (reading-Keeps duration [])
          λ durations. Keeps-bind _ _ (one_by_one-Keeps rest ks) λ later. Keeps-pure _

  read_results-Keeps : Keeps (Good IsGood) (read_results {S = S})
  unfolding read_results current_result
  read_results-Keeps = search (keeps_rules, reading-Keeps) depth 16

  in_bulk-Keeps :
      (sql : Exec S (Option Fields)) → Keeps IsGood sql → Keeps (Good IsGood) (in_bulk sql)
  unfolding in_bulk
  in_bulk-Keeps sql k =
      search (keeps_rules, execute-Keeps IsGood sql k, read_results-Keeps) depth 12

  finish-Keeps : (counts : List ℕ × List ℕ) → Keeps (Good IsGood) (finish {S = S} counts)
  unfolding finish current_result
  finish-Keeps (counts, durations) = search (keeps_rules, set_cursor-Keeps IsGood) depth 16

  pub executemany-Keeps :
      (lowest : Version) (bulk_sql : Exec S (Option Fields)) (sqls : List (Exec S (Option Fields)))
      → Keeps IsGood bulk_sql
      → KeepAll sqls
      → Keeps (Good IsGood) (executemany lowest bulk_sql sqls)
  unfolding executemany
  executemany-Keeps lowest bulk_sql sqls k ks =
      Keeps-bind _ _
        (Keeps-if (has_bulk lowest) _ _ (in_bulk-Keeps bulk_sql k) (one_by_one-Keeps sqls ks))
        finish-Keeps
