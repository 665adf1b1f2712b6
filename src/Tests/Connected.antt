-- ===== src/Tests/Connected.antt =====
-- A client of two servers, of which the first does not answer, its connection, and a statement.
use crate_python.Http.Methods.{server_infos}
use crate_python.Http.Request.{request, redirect_target}
use crate_python.Exceptions.{issubclass, builtin_error, connection_error_of}
use crate_python.Http.Responses.{raise_for_status, error_message, json_from_response}
use crate_python.Version.{parse_version}
use crate_python.Http.Server.{make_server}
use crate_python.Prelude.{
  refl, none, some, true, false, [], ◌∷◌, str, ◌≡◌, arith, contains, starts_with, lower, text_eq,
}
use crate_python.Prelude.Dict.{lookup, insert}
use crate_python.Exec.{Result, ok, err, out_of_fuel}
use crate_python.Version.{version}
use crate_python.Json
use crate_python.Cursor.{Session}
use crate_python.Connection.{Parsed, Connection, connect, lowest_server_version, lower_by}
use crate_python.Http.Url.{
  many, to_server_list, server_urls, server_url, http_match, url_of, netloc,
}
use crate_python.Http.Server.{Server, pool_kw_args, make_server}
use crate_python.Http.Client.{Config, Client, update_server_pool, create_server}
use crate_python.Http.Client.Counts.{count}
use crate_python.Http.Methods.{Settings, make_client, chosen_servers}
use crate_python.Http.Payload.{create_sql_payload, sql_payload}
use crate_python.Http.Request.Failover.{IsServing}
use crate_python.Driver.Query.{query}
use crate_python.Driver.Connected.{make_client-query, cursor_of}
use crate_python.Tests.Requests.{plain_config, one_server}
use crate_python.Tests.Made.{settings}
use crate_python.Tests.Driver.{
  url_a, url_b, rows, fields, lib, env, payload, env-IsServed, rows_test,
}

abbrev two_urls : Settings
two_urls = record settings { servers = some (many (url_a ∷ url_b ∷ [])) }

abbrev made : Result (Config × Client)
made = make_client env (λ path. true) none two_urls

abbrev cfg : Config
cfg = elim made [ ok m ↦ m.0 | err e ↦ plain_config | out_of_fuel ↦ plain_config ]

abbrev client : Client
client = elim made [ ok m ↦ m.1 | err e ↦ one_server | out_of_fuel ↦ one_server ]

made_test : make_client env (λ path. true) none two_urls ≡ ok (cfg, client)
unfolding make_client str chosen_servers to_server_list server_urls server_url http_match
    starts_with lower url_of netloc pool_kw_args
made_test = refl

client-active : client.active ≡ url_a ∷ url_b ∷ []
unfolding make_client str chosen_servers to_server_list server_urls server_url http_match
    starts_with lower url_of netloc pool_kw_args update_server_pool create_server
client-active = refl

client-inactive : client.inactive ≡ []
unfolding make_client str chosen_servers to_server_list server_urls server_url http_match
    starts_with lower url_of netloc pool_kw_args update_server_pool create_server
client-inactive = refl

abbrev connection : Connection
connection = record {
  closed = false;
  client = (lowest_server_version lib env cfg 3 client).1;
  lowest_server_version = Parsed.known (version 0 0 0);
}

connection_test : (connect lib env cfg 3 client).0 ≡ ok connection
unfolding connect lowest_server_version make_client chosen_servers to_server_list server_urls
    server_url http_match starts_with str lower url_of netloc pool_kw_args update_server_pool
    create_server server_infos request lookup text_eq issubclass builtin_error connection_error_of
    redirect_target raise_for_status error_message json_from_response Json.get Json.truthy
    parse_version insert make_server lower_by
connection_test = refl

abbrev server_b : Server
server_b = elim (lookup url_b client.server_pool) [
  | some s ↦ s
  | none ↦ record { url = []; socket_options = none; pool_kw = [] }
]

server_test : lookup url_b client.server_pool ≡ some server_b
unfolding make_client lookup chosen_servers to_server_list server_urls server_url http_match
    starts_with str lower url_of netloc pool_kw_args update_server_pool create_server insert text_eq
server_test = refl

b_active : contains url_b client.active ≡ true
unfolding contains str text_eq
b_active = rw client-active refl

payload_test : create_sql_payload lib (some (str "select 1")) [] [] ≡ ok payload
unfolding create_sql_payload sql_payload
payload_test = refl

server_b-url : server_b.url ≡ url_b
unfolding make_client lookup str chosen_servers to_server_list server_urls server_url http_match
    starts_with lower url_of netloc pool_kw_args update_server_pool create_server insert text_eq
    make_server
server_b-url = refl

make_client-query_example :
    (s : Session Client) × (query lib env cfg 3 3 (str "select 1") [] (cursor_of connection)
      ≡ (ok rows, s))
    × IsServing url_b server_b s.client
unfolding count str text_eq
make_client-query_example =
    make_client-query lib env (λ path. true) none two_urls cfg client 3 3 3 100 connection url_b
      server_b (str "select 1") payload [] fields rows made_test
      (λ u. rw client-active (ground arith)) connection_test b_active server_test payload_test
      (env-IsServed server_b _ server_b-url) (rw (client-active, client-inactive) (omega arith))
      rows_test (omega arith)
