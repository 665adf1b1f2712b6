-- ===== src/Tests/Made.antt =====
-- A client with two servers.
use crate_python.Http.Server.{pool_kw_args}
use crate_python.Http.Value.{Value}
use crate_python.Exec.{out_of_fuel}
use crate_python.Http.Methods.Made.{make_client-IsValid}
use crate_python.Http.Client.Valid.{IsValid}
use crate_python.Http.Url.{
  many, to_server_list, server_urls, server_url, http_match, url_of, netloc,
}
use crate_python.Http.Client.Counts.{count}
use crate_python.Http.Client.{Config, Client, update_server_pool, create_server}
use crate_python.Exec.{Result, ok, err}
use crate_python.Http.Methods.{Settings, make_client, chosen_servers}
use crate_python.Prelude.{
  refl, none, some, true, false, [], ◌≡◌, str, ◌∷◌, arith, text_eq, starts_with, lower,
}
use crate_python.Tests.Requests.{down_env, plain_config, one_server}

abbrev pub settings : Settings
settings = record {
  servers = some (many (str "a:4200" ∷ str "https://b" ∷ []));
  timeout = Value.null;
  backoff_factor = 0;
  verify_ssl_cert = false;
  ca_cert = none;
  error_trace = true;
  cert_file = none;
  key_file = none;
  username = none;
  password = none;
  schema = none;
  pool_size = none;
  socket_keepalive = Value.null;
  socket_tcp_keepidle = Value.null;
  socket_tcp_keepintvl = Value.null;
  socket_tcp_keepcnt = Value.null;
}

abbrev made : Result (Config × Client)
made = make_client down_env (λ path. true) none settings

abbrev made_config : Config
made_config = elim made [ ok m ↦ m.0 | err e ↦ plain_config | out_of_fuel ↦ plain_config ]

abbrev made_client : Client
made_client = elim made [ ok m ↦ m.1 | err e ↦ one_server | out_of_fuel ↦ one_server ]

made_test : make_client down_env (λ path. true) none settings ≡ ok (made_config, made_client)
unfolding make_client chosen_servers to_server_list server_urls server_url http_match starts_with
    str lower url_of netloc pool_kw_args
made_test = refl

made_client-active : made_client.active ≡ str "http://a:4200" ∷ str "https://b" ∷ []
unfolding make_client chosen_servers to_server_list server_urls server_url http_match starts_with
    str lower url_of netloc pool_kw_args update_server_pool create_server
made_client-active = refl

make_client-IsValid_example : IsValid made_client
unfolding count str text_eq
make_client-IsValid_example =
    make_client-IsValid down_env (λ path. true) none settings made_config made_client made_test
      (λ u. rw made_client-active (ground arith))
