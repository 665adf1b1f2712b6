-- ===== src/Driver/Calls.antt =====
-- What an application calls on a cursor and its connection, in sequence.
use crate_python.Http.Client.Valid.{IsValid}
use crate_python.Http.Payload.{Param}
use crate_python.Exec.Keeps.{Keeps, keeps_rules, Keeps-modify}
use crate_python.Exec.{Exec, raise, pure}
use crate_python.Http.Client.{Env, Config, Client}
use crate_python.Driver.Json
use crate_python.Version.{Version}
use crate_python.Prelude.{[], ℕ, Option, List, Text, ◌∷◌}
use crate_python.Driver
use crate_python.Driver.{SqlClient, Call, perform, run, each, ignoring, commit_session, http_client}
use crate_python.Cursor.{Session}
use crate_python.Cursor.Kept.{
  if-Good, Good, execute-Keeps, fetchone-Keeps, next_row-Keeps, fetchmany-Keeps, fetchall-Keeps,
  close-Keeps,
}
use crate_python.Cursor.Executemany.Kept.{KeepAll, executemany-Keeps}

module _ {S : Type 0} (client : SqlClient S) (lowest : Version) (fuel : ℕ) where
  each-KeepAll :
      (stmt : Option (Option Text)) (seq : List (List Param))
      → KeepAll client.IsGood (each client lowest fuel stmt seq)
  unfolding each
  each-KeepAll stmt [] = tt
  each-KeepAll stmt (args ∷ rest) = (client.sql-Keeps stmt args [], each-KeepAll stmt rest)

  ignoring-Keeps :
      {A : Type 0} (m : Exec (Session S) A)
      → Keeps (Good client.IsGood) m
      → Keeps (Good client.IsGood) (ignoring client lowest fuel m)
  unfolding ignoring
  ignoring-Keeps m k = search (keeps_rules, k)

  perform-Keeps : (call : Call) → Keeps (Good client.IsGood) (perform client lowest fuel call)
  unfolding perform commit_session raise pure
  perform-Keeps (Driver.execute stmt args) =
      execute-Keeps client.IsGood _ (client.sql-Keeps stmt args [])
  perform-Keeps (Driver.executemany stmt seq) = ignoring-Keeps _ (
      executemany-Keeps client.IsGood lowest _ _ (client.sql-Keeps stmt [] seq)
        (each-KeepAll stmt seq))
  perform-Keeps Driver.fetchone = ignoring-Keeps _ (fetchone-Keeps client.IsGood)
  perform-Keeps Driver.next = ignoring-Keeps _ (next_row-Keeps client.IsGood)
  perform-Keeps (Driver.fetchmany count) =
      ignoring-Keeps _ (fetchmany-Keeps client.IsGood fuel count)
  perform-Keeps Driver.fetchall = ignoring-Keeps _ (fetchall-Keeps client.IsGood fuel)
  perform-Keeps Driver.close_cursor = close-Keeps client.IsGood
  perform-Keeps Driver.commit = record {
    at = λ s h. if-Good client.IsGood s.connection_closed _ _ h h;
  }
  perform-Keeps Driver.close_connection = Keeps-modify _ (λ s h. h)

  -- Any calls, whatever they raise, keep the invariant of the client.
  run-IsGood :
      (calls : List Call) (s : Session S)
      → client.IsGood s.client
      → client.IsGood (run client lowest fuel calls s).client
  unfolding run
  run-IsGood [] s h = h
  run-IsGood (call ∷ calls) s h = run-IsGood calls _ ((perform-Keeps call).at s h)

-- Any calls of those of `Call`, in whatever order, whatever the servers answer and the calls raise,
-- leave the client's pool of servers valid.
run-IsValid :
    (lib : Json.Library) (env : Env) (cfg : Config) (fuel : ℕ) (lowest : Version)
    (calls : List Call) (s : Session Client)
    → IsValid s.client
    → IsValid (run (http_client lib env cfg fuel) lowest fuel calls s).client
run-IsValid lib env cfg fuel lowest = run-IsGood (http_client lib env cfg fuel) lowest fuel
