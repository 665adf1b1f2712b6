-- ===== src/Tests/Requests.antt =====
-- Requests to servers that are not available.
use crate_python.Exceptions.{
  ex_to_message, issubclass, connection_error_of, ex_to_message, programming_error_of,
}
use crate_python.Http.Request.Ends.{IsRequestError, request-ends_well}
use crate_python.Http.Request.Termination.{request_terminates}
use crate_python.Prelude.Dict.{lookup}
use crate_python.Http.Client.Rounds.{size}
use crate_python.Exec.{out_of_fuel, err}
use crate_python.Http.SuperLen.{no_body}
use crate_python.Http.Request.Valid.{request-IsValid}
use crate_python.Http.Request.Measure.{IsSteady}
use crate_python.Http.Client.Valid.{IsValid}
use crate_python.Http.Client.Counts.{count, count_down}
use crate_python.Exec.Ends.{Post}
use crate_python.Http.Request.{Request, request, redirect_target, srv_unavailable}
use crate_python.Http.Client.{
  Env, Config, Client, get_server, restore, drop_server, remove, heappush,
}
use crate_python.Http.Server.{Platform, Server}
use crate_python.Http.Value.{Response, answered}
use crate_python.Prelude.{
  refl, none, true, false, [], Text, str, ◌≢◌, ◌<◌, ◌∷◌, arith, ◌≡◌, text_eq, contains,
}

abbrev unavailable : Response
unavailable = record {
  status = 503;
  reason = str "Service Unavailable";
  content_type = none;
  redirect_location = none;
  data_bytes = [];
}

abbrev pub platform : Platform
platform = record {
  has_keepidle = true;
  has_keepintvl = true;
  has_keepcnt = true;
  default_socket_options = [];
}

abbrev pub down_env : Env
down_env = record {
  time = λ k. 100;
  urlopen = λ sent server call. answered unavailable;
  platform = platform;
}

abbrev pub plain_config : Config
plain_config = record {
  username = none;
  password = none;
  schema = none;
  backoff_factor = 0;
  path = str "/_sql";
  pool_kw = [];
}

abbrev pooled_server : Server
pooled_server = record { url = str "http://a:4200"; socket_options = none; pool_kw = [] }

abbrev pub one_server : Client
one_server = record {
  active = str "http://a:4200" ∷ [];
  inactive = [];
  server_pool = (str "http://a:4200", pooled_server) ∷ [];
  reads = 0;
  sent = [];
}

abbrev get_root : Request
get_root = record { method = str "GET"; path = str "/"; body = no_body; stream = false }

abbrev no_servers_left : Text
no_servers_left = str "No more Servers available, exception from last server: Service Unavailable"

-- The answer 503 drops the only server; the `ConnectionError` of the drop is raised inside the
-- `try` block, so it comes out as a `ProgrammingError`.
request_test :
    (request down_env plain_config 2 get_root none one_server).0
    ≡ err (programming_error_of no_servers_left none)
unfolding request get_server restore drop_server remove contains str text_eq lookup redirect_target
    srv_unavailable issubclass connection_error_of ex_to_message heappush programming_error_of
request_test = refl

down-IsSteady : IsSteady down_env 100
unfolding redirect_target
down-IsSteady = record {
  since = λ k. omega arith;
  until = λ k. omega arith;
  no_redirect = λ sent server call resp e. ground arith;
  no_reset = λ sent server call ex e. cc;
}

request_terminates_example :
    (request down_env plain_config 2 get_root none one_server).0 ≢ out_of_fuel
request_terminates_example =
    request_terminates down_env plain_config 100 2 get_root one_server down-IsSteady (omega arith)
      (omega arith)

request-ends_well_example :
    Post
      (λ resp c'. (0 < size c') × (redirect_target resp ≡ none))
      (λ e c'. (0 < size c') × IsRequestError e)
      (request down_env plain_config 2 get_root none one_server).0
      (request down_env plain_config 2 get_root none one_server).1
request-ends_well_example =
    request-ends_well down_env plain_config 2 get_root none one_server (omega arith)

pub one_server-IsValid : IsValid one_server
unfolding count count_down lookup
one_server-IsValid = record { heap = tt; pooled = λ s n. ground arith; unique = λ s. ground arith }

request-IsValid_example : IsValid (request down_env plain_config 2 get_root none one_server).1
request-IsValid_example =
    request-IsValid down_env plain_config 2 get_root none one_server one_server-IsValid
