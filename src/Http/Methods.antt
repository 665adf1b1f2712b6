-- ===== src/Http/Methods.antt =====
-- client/http.py, the methods of `Client` that a connection calls: `sql`, `server_infos`, the blob
-- methods, and `__init__`.
pub mod Answered
pub mod Made
pub mod Named
use crate_python.Exceptions.{
  builtin_error, blob_error, attribute_error, blob_location_not_found, digest_not_found,
}
use crate_python.Http.Request.{Request, request}
use crate_python.Http.Server.{pool_kw_args}
use crate_python.Http.Payload.{Param, create_sql_payload}
use crate_python.Http.SuperLen.{Body, no_body, text_body}
use crate_python.Http.Responses.{Content, raise_for_status, content_of, json_from_response}
use crate_python.Exec.{◌>>=◌, ◌>>◌, Result, ok, Exec, err, case_option, pure, lift, on_ok}
use crate_python.Http.Value.{Value, Response}
use crate_python.Prelude.Dict.{Dict, insert}
use crate_python.Http.Client.{Env, Config, Client, update_server_pool}
use crate_python.Prelude.{
  none, some, true, false, [], Option, Text, Bool, List, str, ℕ, ◌++◌, if◌then◌else◌, ◌∷◌, ◌==◌,
  ◌||◌,
}
use crate_python.Json
use crate_python.Json.{Json, Fields, end}
use crate_python.Http.Url.{Servers, one_text, many, to_server_list}

module _ (lib : Json.Library) (env : Env) (cfg : Config) (fuel : ℕ) where
  unfoldable pub plain_request : Text → Text → Body → Bool → Request
  plain_request method path body stream = record {
    method = method;
    path = path;
    body = body;
    stream = stream;
  }

  -- `_json_request`
  unfoldable pub json_request : Text → Text → Body → Exec Client Content
  unfolding plain_request
  json_request method path body = do
    resp ← request env cfg fuel (plain_request method path body false) none
    lift (content_of lib resp)

  -- `sql`: a statement that is `None` does nothing. `some none` is a statement that is no `str`.
  unfoldable pub sql :
      Option (Option Text) → List Param → List (List Param) → Exec Client (Option Content)
  sql stmt args bulk = case_option stmt (pure none) λ s. do
    payload ← lift (create_sql_payload lib s args bulk)
    content ← json_request (str "POST") cfg.path (text_body payload)
    pure (some content)

  -- The path of a blob.
  blob_path : Text → Text → Text
  blob_path table digest = str "/_blobs/" ++ (table ++ (str "/" ++ digest))

  blob_request : Text → Text → Text → Body → Bool → Exec Client Response
  unfolding plain_request blob_path
  blob_request method table digest body stream =
      request env cfg fuel (plain_request method (blob_path table digest) body stream) none

  -- What is left when no status matched: an exception, or `None`.
  abbrev fall_through : Response → Result (Option Bool)
  fall_through resp = on_ok (raise_for_status lib resp) (λ _. ok none)

  unfoldable pub put_answer : Text → Text → Response → Result (Option Bool)
  put_answer table digest resp =
      if resp.status == 201
      then ok (some true)
      else if resp.status == 409
      then ok (some false)
      else if resp.status == 400 || resp.status == 404
      then err (blob_error blob_location_not_found table digest)
      else fall_through resp

  unfoldable pub del_answer : Response → Result (Option Bool)
  del_answer resp =
      if resp.status == 204
      then ok (some true)
      else if resp.status == 404
      then ok (some false)
      else fall_through resp

  unfoldable pub get_answer : Text → Text → Response → Result Response
  get_answer table digest resp =
      if resp.status == 404
      then err (blob_error digest_not_found table digest)
      else on_ok (raise_for_status lib resp) (λ _. ok resp)

  unfoldable pub exists_answer : Response → Result (Option Bool)
  exists_answer resp =
      if resp.status == 200
      then ok (some true)
      else if resp.status == 404
      then ok (some false)
      else fall_through resp

  unfoldable pub blob_put : Text → Text → Body → Exec Client (Option Bool)
  unfolding blob_request put_answer
  blob_put table digest data_ = do
    resp ← blob_request (str "PUT") table digest data_ false
    lift (put_answer table digest resp)

  unfoldable pub blob_del : Text → Text → Exec Client (Option Bool)
  unfolding blob_request del_answer
  blob_del table digest = do
    resp ← blob_request (str "DELETE") table digest no_body false
    lift (del_answer resp)

  -- The response is streamed in chunks of the given size; the stream is the response's.
  unfoldable pub blob_get : Text → Text → ℕ → Exec Client (Response × ℕ)
  unfolding blob_request get_answer
  blob_get table digest chunk_size = do
    resp ← blob_request (str "GET") table digest no_body true
    found ← lift (get_answer table digest resp)
    pure (found, chunk_size)

  unfoldable pub blob_exists : Text → Text → Exec Client (Option Bool)
  unfolding blob_request exists_answer
  blob_exists table digest = do
    resp ← blob_request (str "HEAD") table digest no_body false
    lift (exists_answer resp)

  abbrev dict_of : Json → Result Fields
  dict_of (Json.obj fs) = ok fs
  dict_of _ = err (builtin_error attribute_error (str "object has no attribute 'get'"))

  abbrev number_of : Fields → Json
  number_of version = Json.get_or (str "number") (Json.text (str "0.0.0")) version

  -- The node's name and the version of a server, from the JSON of its root page.
  unfoldable pub node_info : Json → Result (Option Json × Json)
  node_info content = on_ok (dict_of content) λ fs.
      on_ok (dict_of (Json.get_or (str "version") (Json.obj end) fs))
        λ version. ok (Json.get (str "name") fs, number_of version)

  unfoldable pub server_infos : Text → Exec Client (Text × Option Json × Json)
  unfolding plain_request node_info
  server_infos server = do
    resp ← request env cfg fuel (plain_request (str "GET") (str "/") no_body false) (some server)
    lift (raise_for_status lib resp)
    content ← lift (json_from_response lib resp)
    info ← lift (node_info content)
    pure (server, info.0, info.1)

-- The arguments of `Client.__init__`.
pub record Settings : Type 0 where
  pub servers : Option Servers
  pub timeout : Value
  pub backoff_factor : ℕ
  pub verify_ssl_cert : Bool
  pub ca_cert : Option Text
  pub error_trace : Bool
  pub cert_file : Option Text
  pub key_file : Option Text
  pub username : Option Text
  pub password : Option Text
  pub schema : Option Text
  pub pool_size : Option ℕ
  pub socket_keepalive : Value
  pub socket_tcp_keepidle : Value
  pub socket_tcp_keepintvl : Value
  pub socket_tcp_keepcnt : Value

-- `default_server`, `SQL_PATH`
abbrev pub default_server : Text
default_server = str "http://127.0.0.1:4200"

abbrev sql_path : Bool → Text
sql_path error_trace = str "/_sql" ++ (if error_trace then str "?error_trace=true" else [])

-- `if not servers: … else: …`
unfoldable pub chosen_servers : Option Servers → Result (List Text)
chosen_servers none = ok (default_server ∷ [])
chosen_servers (some (one_text [])) = ok (default_server ∷ [])
chosen_servers (some (many [])) = ok (default_server ∷ [])
chosen_servers (some servers) = to_server_list servers

abbrev pub with_sockets : Settings → Dict Value → Dict Value
with_sockets s kw = insert (str "socket_tcp_keepcnt") s.socket_tcp_keepcnt (
    insert (str "socket_tcp_keepintvl") s.socket_tcp_keepintvl (
      insert (str "socket_tcp_keepidle") s.socket_tcp_keepidle
        (insert (str "socket_keepalive") s.socket_keepalive kw)))

abbrev config_of : Settings → Dict Value → Config
config_of s kw = record {
  username = s.username;
  password = s.password;
  schema = s.schema;
  backoff_factor = s.backoff_factor;
  path = sql_path s.error_trace;
  pool_kw = kw;
}

abbrev pub listed : List Text → Client
listed servers = record { active = servers; inactive = []; server_pool = []; reads = 0; sent = [] }

-- `Client.__init__`. `path_exists` and `environ` are the file system and the environment.
unfoldable pub make_client : Env → (Text → Bool) → Option Text → Settings → Result (Config × Client)
make_client env path_exists environ s = on_ok (chosen_servers s.servers) λ servers.
    on_ok
      (pool_kw_args path_exists environ s.verify_ssl_cert s.ca_cert s.cert_file s.key_file s.timeout
        s.pool_size)
      λ base_kw.
        let kw = with_sockets s base_kw in
        ok (config_of s kw, update_server_pool env servers kw (listed servers))
