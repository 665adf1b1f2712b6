-- ===== src/Driver/Connected.antt =====
-- From a new connection to the rows of a statement.
use crate_python.Http.Methods.Named.{make_client-AreNames}
use crate_python.Http.Methods.Made.{make_client-IsValid}
use crate_python.Prelude.Dict.{lookup}
use crate_python.Http.Client.Counts.{count}
use crate_python.Http.Methods.{Settings, make_client}
use crate_python.Prelude.{
  refl, some, [], ℕ, List, Text, ◌≡◌, ◌<◌, length, str, false, subst, arith, true, Bool, Option,
  ◌≤◌, contains,
}
use crate_python.Exec.{Exec, Result, ok, err, ◌>>=◌, gets, pure, continue}
use crate_python.Exec.OnOk.{OnOk}
use crate_python.Json
use crate_python.Json.{Json, Fields}
use crate_python.Cursor.{Session, new_cursor}
use crate_python.Connection.{Parsed, Connection, connect, lowest_server_version}
use crate_python.Connection.Valid.{lowest_server_version-IsValid}
use crate_python.Connection.Asked.{lowest_server_version-IsAsIn}
use crate_python.Http.Server.{Server}
use crate_python.Http.Client.{Env, Config, Client}
use crate_python.Http.Client.Rounds.{size}
use crate_python.Http.Payload.{Param, create_sql_payload}
use crate_python.Http.Methods.Answered.{sql_request}
use crate_python.Http.Request.{call_of}
use crate_python.Http.Request.Given.{AreNames}
use crate_python.Http.Request.Failover.{IsServed, IsServing}
use crate_python.Http.Responses.{content_of}
use crate_python.Driver.Query.{query, query-rows}

-- The state of a new cursor of a connection.
abbrev pub cursor_of : Connection → Session Client
cursor_of conn = record {
  cursor = new_cursor;
  connection_closed = conn.closed;
  client = conn.client;
}

module _ (lib : Json.Library) (env : Env) (cfg : Config) (fuel : ℕ) where
  abbrev IsMade : Client → Connection → Type 0
  IsMade c conn =
      (conn.client ≡ (lowest_server_version lib env cfg fuel c).1) × (conn.closed ≡ false)

  connect-IsMade : (c : Client) → OnOk (IsMade c) (connect lib env cfg fuel c).0
  unfolding connect ◌>>=◌ gets pure
  connect-IsMade c = go (lowest_server_version lib env cfg fuel c).0
    where
      made : Parsed → Exec Client Connection
      made v d = (ok (record { closed = false; client = d; lowest_server_version = v }), d)

      go :
          (r : Result Parsed)
          → OnOk (IsMade c) (continue r made (lowest_server_version lib env cfg fuel c).1).0
      go (ok v) = (refl, refl)
      go (err e) = tt
      go Result.out_of_fuel = tt

  -- A new connection is open, and the server that serves still does, in a pool of the same size.
  pub connect-IsServing :
      (good : Text) (server : Server) (c : Client) (conn : Connection)
      → AreNames c.active
      → IsServing good server c
      → (connect lib env cfg fuel c).0 ≡ ok conn
      → IsServing good server conn.client × (size conn.client ≡ size c) × (conn.closed ≡ false)
  connect-IsServing good server c conn names s e =
      let (same, opened) = subst (OnOk (IsMade c)) e (connect-IsMade c) in
      let (a, i, l) = lowest_server_version-IsAsIn lib env cfg fuel c good server names s.pooled in
      let valid = lowest_server_version-IsValid lib env cfg fuel c s.valid in
      (
        rw same (record { good_active = rw a s.good_active; pooled = l; valid = valid }),
        rw (same, a, i) refl,
        opened,
      )

-- A client is made of settings in which no server stands twice, and a connection with it, whichever of
-- the servers fail to tell their versions. On a new cursor a statement is executed whose parameters
-- can be encoded, and its rows are fetched. As long as one of the servers always answers the statement's
-- request, and every available server that answers it gives a JSON object with these rows, `fetchall`
-- after `execute` returns the rows in order. The clock, the redirects and the connections are steady,
-- errors are urllib3's, and there is fuel for a round for each server and for the rows.
pub make_client-query :
    (lib : Json.Library) (env : Env) (path_exists : Text → Bool) (environ : Option Text)
    (settings : Settings) (cfg : Config) (c : Client) (asking fuel n t₀ : ℕ) (conn : Connection)
    (good : Text) (server : Server) (stmt payload : Text) (args : List Param) (fs : Fields)
    (rows : List Json)
    → make_client env path_exists environ settings ≡ ok (cfg, c)
    → ((u : Text) → count u c.active ≤ 1)
    → (connect lib env cfg asking c).0 ≡ ok conn
    → contains good c.active ≡ true
    → lookup good c.server_pool ≡ some server
    → create_sql_payload lib (some stmt) args [] ≡ ok payload
    → IsServed env t₀ server
        (call_of env cfg (sql_request lib env cfg fuel payload))
        (λ resp. content_of lib resp ≡ ok (some (Json.obj fs)))
    → size c < fuel
    → Json.get (str "rows") fs ≡ some (Json.arr (Json.items rows))
    → length rows < n
    → (s : Session Client) × (query lib env cfg fuel n stmt args (cursor_of conn) ≡ (ok rows, s))
      × IsServing good server s.client
make_client-query lib env path_exists environ settings cfg c asking fuel n t₀ conn good server stmt
      payload args fs rows made once e active pooled p h enough g more =
    let serving : IsServing good server c = record {
      good_active = active;
      pooled = pooled;
      valid = make_client-IsValid env path_exists environ settings cfg c made once;
    } in
    let names = make_client-AreNames env path_exists environ settings cfg c made in
    let (s, same, opened) =
      connect-IsServing lib env cfg asking good server c conn names serving e in
    let (t, result, serves, still_open, rest) =
      query-rows lib env cfg fuel n t₀ good server (cursor_of conn) stmt payload args fs rows p h s
        (omega (arith, same, enough)) (record { connection = opened; cursor = refl }) g more in
    (t, result, serves)
