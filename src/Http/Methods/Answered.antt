-- ===== src/Http/Methods/Answered.antt =====
-- The methods of `Client` on a pool with a server that answers, and on any pool.
use crate_python.Http.Responses.{Content, content_of}
use crate_python.Http.Payload.{Param, create_sql_payload}
use crate_python.Http.Server.{Server}
use crate_python.Exec.Keeps.{Keeps, keeps_rules}
use crate_python.Http.SuperLen.{Body, text_body}
use crate_python.Http.Request.{Request, request}
use crate_python.Http.Client.{Env, Config, Client}
use crate_python.Http.Methods.Json
use crate_python.Exec.{case_option, ok, ◌>>=◌, lift, pure}
use crate_python.Prelude.{some, false, ℕ, Option, Text, List, str, ◌≡◌, ◌<◌, refl, none}
use crate_python.Http.Methods.{
  sql, json_request, plain_request, blob_put, blob_del, blob_get, blob_exists, blob_request,
}
use crate_python.Http.Request.{call_of}
use crate_python.Http.Request.Failover.{IsServed, IsServing}
use crate_python.Http.Request.Failover.Found.{request-fails_over}
use crate_python.Http.Request.Valid.{request-IsValid}
use crate_python.Http.Client.Valid.{IsValid}
use crate_python.Http.Client.Rounds.{size}

module _ (lib : Json.Library) (env : Env) (cfg : Config) (fuel : ℕ) where
  request-Keeps-IsValid :
      (r : Request) (server : Option Text) → Keeps IsValid (request env cfg fuel r server)
  request-Keeps-IsValid r server = record { at = request-IsValid env cfg fuel r server }

  pub sql-Keeps :
      (stmt : Option (Option Text)) (args : List Param) (bulk : List (List Param))
      → Keeps IsValid (sql lib env cfg fuel stmt args bulk)
  unfolding sql json_request
  sql-Keeps stmt args bulk = search (keeps_rules, request-Keeps-IsValid) depth 12

  pub blob_put-Keeps :
      (table digest : Text) (body : Body)
      → Keeps IsValid (blob_put lib env cfg fuel table digest body)
  unfolding blob_put blob_request
  blob_put-Keeps table digest body = search (keeps_rules, request-Keeps-IsValid) depth 12

  pub blob_del-Keeps :
      (table digest : Text) → Keeps IsValid (blob_del lib env cfg fuel table digest)
  unfolding blob_del blob_request
  blob_del-Keeps table digest = search (keeps_rules, request-Keeps-IsValid) depth 12

  pub blob_get-Keeps :
      (table digest : Text) (chunk_size : ℕ)
      → Keeps IsValid (blob_get lib env cfg fuel table digest chunk_size)
  unfolding blob_get blob_request
  blob_get-Keeps table digest chunk_size = search (keeps_rules, request-Keeps-IsValid) depth 12

  pub blob_exists-Keeps :
      (table digest : Text) → Keeps IsValid (blob_exists lib env cfg fuel table digest)
  unfolding blob_exists blob_request
  blob_exists-Keeps table digest = search (keeps_rules, request-Keeps-IsValid) depth 12

-- The request that `sql` makes of a payload
abbrev pub sql_request : Json.Library → Env → Config → ℕ → Text → Request
sql_request lib env cfg fuel payload =
    plain_request lib env cfg fuel (str "POST") cfg.path (text_body payload) false

pub sql-fails_over :
    (lib : Json.Library) (env : Env) (cfg : Config) (fuel t₀ : ℕ) (good : Text) (server : Server)
    (c : Client) (stmt payload : Text) (args : List Param) (bulk : List (List Param))
    (content : Content)
    → create_sql_payload lib (some stmt) args bulk ≡ ok payload
    → IsServed env t₀ server
        (call_of env cfg (sql_request lib env cfg fuel payload))
        (λ resp. content_of lib resp ≡ ok content)
    → IsServing good server c
    → size c < fuel
    → (c' : Client) × (sql lib env cfg fuel (some (some stmt)) args bulk c
        ≡ (ok (some content), c'))
      × IsServing good server c'
unfolding sql json_request case_option ◌>>=◌ lift pure
sql-fails_over lib env cfg fuel t₀ good server c stmt payload args bulk content e h serving enough =
    let (resp, found, serves, available, read) =
      request-fails_over env cfg t₀ good server (sql_request lib env cfg fuel payload) _ fuel c h
        serving enough in
    (
      (request env cfg fuel (sql_request lib env cfg fuel payload) none c).1,
      rw (e, found, read) refl,
      serves,
    )
