-- ===== src/Tests/Driver.antt =====
-- Two servers, of which the first does not answer.
use crate_python.Http.Request.Failover.Found.{request-fails_over}
use crate_python.Http.Request.Measure.{IsSteady}
use crate_python.Http.Methods.Answered.{sql_request}
use crate_python.Driver.Query.{query, query-rows}
use crate_python.Exec.{ok}
use crate_python.Http.Responses.{content_of, raise_for_status, json_from_response, error_message}
use crate_python.Driver.{Call}
use crate_python.Http.Payload.{create_sql_payload, sql_payload}
use crate_python.Cursor.Executemany.Totals.{IsOpen}
use crate_python.Cursor.{Session, new_cursor}
use crate_python.Http.Request.{redirect_target, srv_unavailable, request, preserve_server, call_of}
use crate_python.Prelude.Dict.{lookup}
use crate_python.Prelude.Int.{pos}
use crate_python.Exceptions.{Exn, builtin_error, max_retry_error, issubclass}
use crate_python.Prelude.{
  refl, none, some, true, false, [], Text, List, str, if◌then◌else◌, ◌∷◌, contains, Bool, text_eq,
  ◌≡◌, arith,
}
use crate_python.Http.Request.Failover.{IsServing, IsServed}
use crate_python.Http.Client.{Env, Client}
use crate_python.Http.Client.Counts.{count, count_down}
use crate_python.Http.Server.{Server, HttpCall}
use crate_python.Http.Value.{Response, answered, raised}
use crate_python.Tests.Requests.{platform, plain_config}
use crate_python.Json
use crate_python.Json.{Json, Fields, end, field}

abbrev pub url_a : Text
url_a = str "http://a:4200"

abbrev pub url_b : Text
url_b = str "http://b:4200"

abbrev server_at : Text → Server
server_at url = record { url = url; socket_options = none; pool_kw = [] }

abbrev pub rows : List Json
rows = Json.num (pos 1) ∷ Json.num (pos 2) ∷ []

abbrev pub fields : Fields
fields = field (str "rows") (Json.arr (Json.items rows)) end

abbrev pub lib : Json.Library
lib = record { loads = λ t. some (Json.obj fields); dumps = λ v. str "{}"; show = λ v. [] }

abbrev found : Response
found = record {
  status = 200;
  reason = str "OK";
  content_type = some (str "application/json");
  redirect_location = none;
  data_bytes = str "{}";
}

abbrev unreachable : Exn
unreachable = builtin_error max_retry_error (str "refused")

abbrev pub env : Env
env = record {
  time = λ k. 100;
  urlopen =
      λ sent server call. if text_eq server.url url_b then answered found else raised unreachable;
  platform = platform;
}

abbrev two_servers : Client
two_servers = record {
  active = url_a ∷ url_b ∷ [];
  inactive = [];
  server_pool = (url_a, server_at url_a) ∷ (url_b, server_at url_b) ∷ [];
  reads = 0;
  sent = [];
}

two_servers-IsServing : IsServing url_b (server_at url_b) two_servers
unfolding contains str text_eq lookup count count_down
two_servers-IsServing = record {
  good_active = refl;
  pooled = refl;
  valid = record { heap = tt; pooled = λ s n. ground arith; unique = λ s. ground arith };
}

reply-redirect :
    (b : Bool) (resp : Response)
    → (if b then answered found else raised unreachable) ≡ answered resp
    → resp ≡ found
reply-redirect true resp e = cc
reply-redirect false resp e = cc

reply-raised :
    (b : Bool) (ex : Exn)
    → (if b then answered found else raised unreachable) ≡ raised ex
    → ex ≡ unreachable
reply-raised true ex e = cc
reply-raised false ex e = cc

env-IsSteady : IsSteady env 100
unfolding redirect_target preserve_server issubclass builtin_error
env-IsSteady = record {
  since = λ k. omega arith;
  until = λ k. omega arith;
  no_redirect =
      λ sent server call resp e. rw (reply-redirect (text_eq server.url url_b) resp e) refl;
  no_reset = λ sent server call ex e. rw (reply-raised (text_eq server.url url_b) ex e) refl;
}

abbrev pub payload : Text
payload = str "{}"

pub env-IsServed :
    (server : Server) (call : HttpCall)
    → server.url ≡ url_b
    → IsServed env 100 server call (λ resp. content_of lib resp ≡ ok (some (Json.obj fields)))
unfolding text_eq str srv_unavailable content_of issubclass builtin_error raise_for_status
    json_from_response error_message
env-IsServed server call at_b = record {
  steady = env-IsSteady;
  healthy = λ sent. (found, rw at_b refl, refl);
  http_errors = λ sent other ex e. rw (reply-raised (text_eq other.url url_b) ex e) refl;
  answers =
      λ sent other resp e available. rw (reply-redirect (text_eq other.url url_b) resp e) refl;
}

b-IsServed :
    IsServed env 100
      (server_at url_b)
      (call_of env plain_config (sql_request lib env plain_config 3 payload))
      (λ resp. content_of lib resp ≡ ok (some (Json.obj fields)))
b-IsServed =
    env-IsServed (server_at url_b)
      (call_of env plain_config (sql_request lib env plain_config 3 payload)) refl

request-fails_over_example :
    (resp : Response) × ((request env plain_config 3
        (sql_request lib env plain_config 3 payload)
        none
        two_servers).0
      ≡ ok resp)
    × IsServing url_b
        (server_at url_b)
        (request env plain_config 3 (sql_request lib env plain_config 3 payload) none two_servers).1
    × (srv_unavailable resp.status ≡ false)
    × (content_of lib resp ≡ ok (some (Json.obj fields)))
request-fails_over_example =
    request-fails_over env plain_config 100 url_b (server_at url_b)
      (sql_request lib env plain_config 3 payload)
      (λ resp. content_of lib resp ≡ ok (some (Json.obj fields))) 3 two_servers b-IsServed
      two_servers-IsServing (omega arith)

abbrev session : Session Client
session = record { cursor = new_cursor; connection_closed = false; client = two_servers }

session-IsOpen : IsOpen session
session-IsOpen = record { connection = refl; cursor = refl }

pub rows_test : Json.get (str "rows") fields ≡ some (Json.arr (Json.items rows))
unfolding Json.get str text_eq
rows_test = refl

payload_test : create_sql_payload lib (some (str "select 1")) [] [] ≡ ok payload
unfolding create_sql_payload sql_payload
payload_test = refl

query-rows_example :
    (s' : Session Client) × (query lib env plain_config 3 3 (str "select 1") [] session
      ≡ (ok rows, s'))
    × IsServing url_b (server_at url_b) s'.client
    × IsOpen s'
    × (s'.cursor.result ≡ some fields)
query-rows_example =
    query-rows lib env plain_config 3 3 100 url_b (server_at url_b) session (str "select 1") payload
      [] fields rows payload_test b-IsServed two_servers-IsServing (omega arith) session-IsOpen
      rows_test (omega arith)

abbrev calls : List Call
calls =
    Call.execute (some (some (str "select 1"))) []
    ∷ Call.fetchone
    ∷ Call.executemany (some (some (str "insert"))) ([] ∷ [] ∷ [])
    ∷ Call.close_connection
    ∷ Call.commit
    ∷ []
