-- ===== src/Driver.antt =====
-- The driver as a whole: a cursor of client/cursor.py whose connection has the `Client` of
-- client/http.py, and what an application calls.
pub mod Calls
pub mod Query
pub mod Connected
pub mod Closed
use crate_python.Http.Client.Valid.{IsValid}
use crate_python.Prelude.Int.{ℤ}
use crate_python.Exec.Keeps.{Keeps, keeps_rules}
use crate_python.Http.Payload.{Param}
use crate_python.Exec.{Exec, Result, ok, err, ◌>>=◌, ◌>>◌, lift, raise, pure, modify}
use crate_python.Http.Client.{Env, Config, Client}
use crate_python.Http.Responses.{Content}
use crate_python.Json
use crate_python.Prelude.{none, some, true, [], Option, ℕ, Text, List, if◌then◌else◌, ◌∷◌, str}
use crate_python.Exceptions.{builtin_error, type_error, programming_error_of}
use crate_python.Json.{Json, Fields}
use crate_python.Version.{Version}
use crate_python.Cursor.{Session}
use crate_python.Cursor
use crate_python.Cursor.Executemany
use crate_python.Http.Methods.{sql}
use crate_python.Http.Methods.Answered.{sql-Keeps}

-- What a cursor needs of a client: `sql`, and an invariant of the client's state that it keeps,
-- whatever is asked and however it ends.
pub record SqlClient (S : Type 0) : Type 1 where
  pub sql : Option (Option Text) → List Param → List (List Param) → Exec S (Option Fields)
  pub IsGood : S → Type 0
  pub sql-Keeps :
      (stmt : Option (Option Text)) (args : List Param) (bulk : List (List Param))
      → Keeps IsGood (sql stmt args bulk)

-- The content of an answer, which the cursor takes to be a JSON object.
abbrev as_object : Option Content → Result (Option Fields)
as_object none = ok none
as_object (some (some (Json.obj fs))) = ok (some fs)
as_object (some c) = err (builtin_error type_error (str "the answer is no object"))

module _ (lib : Json.Library) (env : Env) (cfg : Config) (fuel : ℕ) where
  unfoldable pub client_sql :
      Option (Option Text) → List Param → List (List Param) → Exec Client (Option Fields)
  client_sql stmt args bulk = do
    content ← sql lib env cfg fuel stmt args bulk
    lift (as_object content)

  pub client_sql-Keeps :
      (stmt : Option (Option Text)) (args : List Param) (bulk : List (List Param))
      → Keeps IsValid (client_sql stmt args bulk)
  unfolding client_sql
  client_sql-Keeps stmt args bulk = search (keeps_rules, sql-Keeps lib env cfg fuel) depth 8

  -- The client of client/http.py, with the invariant of its pool of servers.
  abbrev pub http_client : SqlClient Client
  http_client = record { sql = client_sql; IsGood = IsValid; sql-Keeps = client_sql-Keeps }

-- What an application calls, on a cursor and on its connection. Fetching all rows has fuel.
pub data Call : Type 0 where
  execute : Option (Option Text) → List Param → Call
  executemany : Option (Option Text) → List (List Param) → Call
  fetchone next close_cursor commit close_connection : Call
  fetchmany : Option ℤ → Call
  fetchall : Call

module _ {S : Type 0} (client : SqlClient S) (lowest : Version) (fuel : ℕ) where
  -- `self.execute(sql, params)`, for each set of parameters
  each : Option (Option Text) → List (List Param) → List (Exec S (Option Fields))
  each stmt [] = []
  each stmt (args ∷ rest) = client.sql stmt args [] ∷ each stmt rest

  ignoring : {A : Type 0} → Exec (Session S) A → Exec (Session S) (Unit {0})
  ignoring m = do m; pure tt

  -- `Connection.commit` and `Connection.close`, on the session
  commit_session : Exec (Session S) (Unit {0})
  commit_session s =
      if s.connection_closed
      then raise (programming_error_of (str "Connection closed") none) s
      else pure tt s

  unfoldable pub perform : Call → Exec (Session S) (Unit {0})
  unfolding ignoring commit_session each
  perform (execute stmt args) = Cursor.execute (client.sql stmt args [])
  perform (executemany stmt seq) =
      ignoring (Executemany.executemany lowest (client.sql stmt [] seq) (each stmt seq))
  perform fetchone = ignoring Cursor.fetchone
  perform next = ignoring Cursor.next_row
  perform (fetchmany count) = ignoring (Cursor.fetchmany fuel count)
  perform fetchall = ignoring (Cursor.fetchall fuel)
  perform close_cursor = Cursor.close
  perform commit = commit_session
  perform close_connection = modify (λ s. record s { connection_closed = true })

  -- One call after the other. The application goes on whatever a call raises.
  unfoldable pub run : List Call → Session S → Session S
  run [] s = s
  run (call ∷ calls) s = run calls (perform call s).1
