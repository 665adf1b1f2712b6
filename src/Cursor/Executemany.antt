-- ===== src/Cursor/Executemany.antt =====
-- client/cursor.py, `executemany`: one bulk request, or one request for each set of parameters.
pub mod Totals
pub mod Kept
pub mod Sums
use crate_python.Version.{Version, version_lt, version}
use crate_python.Exceptions.{builtin_error}
use crate_python.Cursor.{
  Cursor, set_cursor, Session, execute, rowcount, iterable, type_error, attribute_error, duration,
}
use crate_python.Prelude.{
  none, some, [], List, Text, Bool, str, ℕ, Option, ◌∷◌, ◌+◌, ◌++◌, if◌then◌else◌, not,
}
use crate_python.Prelude.Int.{ℤ, pos, negsuc}
use crate_python.Exec.{◌>>=◌, ◌>>◌, Result, Exec, ok, err, gets, pure, lift, on_ok}
use crate_python.Json
use crate_python.Json.{Json, Items, Fields, end, field}

-- `result.get('rowcount') > -1`, of one of the results of a bulk operation
abbrev count_of : Json → Result ℤ
count_of (Json.num n) = ok n
count_of _ = err (builtin_error type_error (str "'>' not supported"))

abbrev field_count : Json → Result ℤ
field_count (Json.obj fs) = count_of (Json.get_or (str "rowcount") Json.null fs)
field_count _ = err (builtin_error attribute_error (str "object has no attribute 'get'"))

-- A count that is -1 or less stands for none.
abbrev pub kept : ℤ → List ℕ → List ℕ
kept (pos n) rest = n ∷ rest
kept (negsuc n) rest = rest

unfoldable pub kept_counts : List Json → Result (List ℕ)
kept_counts [] = ok []
kept_counts (r ∷ rs) =
    let rest = kept_counts rs in on_ok (field_count r) (λ n. on_ok rest (λ ns. ok (kept n ns)))

unfoldable pub sum : List ℕ → ℕ
sum [] = 0
sum (n ∷ ns) = n + sum ns

-- `sum(xs) if xs else -1`
unfoldable pub sum_or_none : List ℕ → ℤ
sum_or_none [] = negsuc 0
sum_or_none (n ∷ ns) = pos (sum (n ∷ ns))

-- `self._result.get(key, default)`: there is no result if nothing was executed.
abbrev result_get : Text → Json → Option Fields → Result Json
result_get key default none = err (builtin_error attribute_error (str "'NoneType' has no 'get'"))
result_get key default (some fs) = ok (Json.get_or key default fs)

abbrev summary : List ℕ → List ℕ → Json → Json → Fields
summary counts durations cols results = field (str "rowcount") (Json.num (sum_or_none counts)) (
    field (str "duration") (Json.num (sum_or_none durations)) (
      field (str "rows") (Json.arr Json.nil)
        (field (str "cols") cols (field (str "results") results end))))

-- `lowest_server_version >= BULK_INSERT_MIN_VERSION`, of a version that is not empty
unfoldable pub has_bulk : Version → Bool
has_bulk lowest = not (version_lt lowest (version 0 42 0))

module _ {S : Type 0} where
  current_result : Exec (Session S) (Option Fields)
  current_result = gets (λ s. s.cursor.result)

  -- `if self.rowcount > -1: row_counts.append(self.rowcount)`, and so for the duration
  pub reading : (Cursor → Json) → List ℕ → Exec (Session S) (List ℕ)
  reading property counts = do
    v ← gets (λ s. property s.cursor)
    n ← lift (count_of v)
    pure (kept n counts)

  -- The branch for servers without bulk operations.
  unfoldable pub one_by_one : List (Exec S (Option Fields)) → Exec (Session S) (List ℕ × List ℕ)
  unfolding reading
  one_by_one [] = pure ([], [])
  one_by_one (sql ∷ rest) = do
    execute sql
    counts ← reading rowcount []
    durations ← reading duration []
    later ← one_by_one rest
    pure (counts ++ later.0, durations ++ later.1)

  -- `for result in self._result.get('results', []): …`, and the duration
  pub read_results : Exec (Session S) (List ℕ × List ℕ)
  unfolding current_result reading
  read_results = do
    result ← current_result
    results ← lift (result_get (str "results") (Json.arr Json.nil) result)
    entries ← lift (iterable results)
    counts ← lift (kept_counts entries)
    durations ← reading duration []
    pure (counts, durations)

  -- The branch for servers with them.
  unfoldable pub in_bulk : Exec S (Option Fields) → Exec (Session S) (List ℕ × List ℕ)
  unfolding read_results
  in_bulk sql = do execute sql; read_results

  unfoldable pub finish : List ℕ × List ℕ → Exec (Session S) Json
  unfolding current_result set_cursor
  finish (counts, durations) = do
    result ← current_result
    cols ← lift (result_get (str "cols") (Json.arr Json.nil) result)
    results ← lift (result_get (str "results") Json.null result)
    set_cursor
        (λ c. record c { result = some (summary counts durations cols results); rows = some [] })
    pure results

  -- `lowest` is the connection's lowest server version; `bulk_sql` is the client's call with all
  -- parameters, `sqls` those with one set each.
  unfoldable pub executemany :
      Version → Exec S (Option Fields) → List (Exec S (Option Fields)) → Exec (Session S) Json
  unfolding one_by_one in_bulk finish ◌>>=◌ has_bulk
  executemany lowest bulk_sql sqls = do
    counts ← if has_bulk lowest then in_bulk bulk_sql else one_by_one sqls
    finish counts
