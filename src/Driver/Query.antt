-- ===== src/Driver/Query.antt =====
-- A statement and its rows, from the application to the servers and back.
use crate_python.Cursor.Fetch.{holding, fetchall_lem}
use crate_python.Http.Client.Rounds.{size}
use crate_python.Http.Responses.{content_of}
use crate_python.Http.Methods.Answered.{sql_request, sql-fails_over}
use crate_python.Http.Request.{call_of}
use crate_python.Http.Request.Failover.{IsServed, IsServing}
use crate_python.Exec.Runs.{bind-ok}
use crate_python.Http.Server.{Server}
use crate_python.Cursor.Executemany.Totals.{IsOpen}
use crate_python.Http.Payload.{Param, create_sql_payload}
use crate_python.Http.Client.{Env, Config, Client}
use crate_python.Exec.{Exec, ok, ◌>>◌, lift}
use crate_python.Json.{Fields, Json}
use crate_python.Prelude.{
  refl, some, [], List, ◌≡◌, Option, ◌∷◌, ℕ, str, Text, arith, ◌<◌, length, ◌∙◌, ap,
}
use crate_python.Driver.{client_sql, sql}
use crate_python.Cursor.{Session, execute, fetchall}
use crate_python.Json

of_items-items : (vs : List Json) → Json.of_items (Json.items vs) ≡ vs
unfolding Json.of_items Json.items
of_items-items [] = refl
of_items-items (v ∷ vs) = rw (of_items-items vs) refl

-- The session after an answer that has rows.
abbrev pub answered_with : {S : Type 0} → Session S → Fields → List Json → S → Session S
answered_with s fs rows c = record s {
  cursor = record s.cursor { result = some fs; rows = some rows };
  client = c;
}

execute-rows :
    {S : Type 0} (sql : Exec S (Option Fields)) (s : Session S) (fs : Fields) (rows : List Json)
    (c : S)
    → IsOpen s
    → sql s.client ≡ (ok (some fs), c)
    → Json.get (str "rows") fs ≡ some (Json.arr (Json.items rows))
    → execute sql s ≡ (ok tt, answered_with s fs rows c)
unfolding execute
execute-rows sql s fs rows c o e g =
    ground (arith, o.connection, o.cursor, e, g, of_items-items rows)

-- `cursor.execute(stmt, args)` and then `cursor.fetchall()`, on fuel for the rounds of the request and
-- for the rows.
pub query :
    Json.Library → Env → Config → ℕ → ℕ → Text → List Param → Exec (Session Client) (List Json)
query lib env cfg fuel n stmt args = do
  execute (client_sql lib env cfg fuel (some (some stmt)) args [])
  fetchall n

client_sql-fields :
    (lib : Json.Library) (env : Env) (cfg : Config) (fuel : ℕ) (stmt : Text) (args : List Param)
    (fs : Fields) (c c' : Client)
    → sql lib env cfg fuel (some (some stmt)) args [] c ≡ (ok (some (some (Json.obj fs))), c')
    → client_sql lib env cfg fuel (some (some stmt)) args [] c ≡ (ok (some fs), c')
unfolding client_sql lift
client_sql-fields lib env cfg fuel stmt args fs c c' e =
    bind-ok (sql lib env cfg fuel (some (some stmt)) args []) _ c _ c' e

-- On an open cursor, a statement whose parameters can be encoded is executed and its rows fetched: as
-- long as one active server of the pool always answers this request, and every available server that
-- answers it gives a JSON object with these rows, `fetchall` after `execute` returns the rows in order.
-- The cursor stays open, with the object as its result, and the server that answers stays active. The
-- clock, the redirects and the connections are steady, errors are urllib3's, and there is fuel for a
-- round for each server and for the rows.
pub query-rows :
    (lib : Json.Library) (env : Env) (cfg : Config) (fuel n t₀ : ℕ) (good : Text) (server : Server)
    (s : Session Client) (stmt payload : Text) (args : List Param) (fs : Fields) (rows : List Json)
    → create_sql_payload lib (some stmt) args [] ≡ ok payload
    → IsServed env t₀ server
        (call_of env cfg (sql_request lib env cfg fuel payload))
        (λ resp. content_of lib resp ≡ ok (some (Json.obj fs)))
    → IsServing good server s.client
    → size s.client < fuel
    → IsOpen s
    → Json.get (str "rows") fs ≡ some (Json.arr (Json.items rows))
    → length rows < n
    → (s' : Session Client) × (query lib env cfg fuel n stmt args s ≡ (ok rows, s'))
      × IsServing good server s'.client
      × IsOpen s'
      × (s'.cursor.result ≡ some fs)
unfolding query
query-rows lib env cfg fuel n t₀ good server s stmt payload args fs rows p h serving enough o g
      more =
    let (c, e, serves) =
      sql-fails_over lib env cfg fuel t₀ good server s.client stmt payload args []
        (some (Json.obj fs)) p h serving enough in
    let t = answered_with s fs rows c in
    let executed =
      execute-rows (client_sql lib env cfg fuel (some (some stmt)) args []) s fs rows c o
        (client_sql-fields lib env cfg fuel stmt args fs s.client c e) g in
    let open_fetched : fetchall n t ≡ fetchall n (holding t rows) =
      ap (λ b. fetchall n (record t { cursor = record t.cursor { closed = b } })) o.cursor in
    (
      holding t [],
      bind-ok (execute _) _ s tt t executed ∙ open_fetched ∙ fetchall_lem t n rows more,
      serves,
      record { connection = o.connection; cursor = refl },
      refl,
    )
