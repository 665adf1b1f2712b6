-- ===== src/Http/Request/Failover.antt =====
-- A request is answered as long as one active server is.
pub mod Kept
pub mod Replies
pub mod Found
use crate_python.Exec.{ok, Exec, ◌>>=◌, gets, modify, case_option, lift}
use crate_python.Exec.Ends.{
  EndsWith, Ends-bind, Ends-if, Ends-pure, Ends-case_option, PostWith, Ends-try_except, Ends-given,
  Ends-weaken,
}
use crate_python.Http.Client.Rounds.{get_server_total}
use crate_python.Exceptions.{Exn, issubclass, http_error}
use crate_python.Http.Request.{
  srv_unavailable, redirect_target, preserve_server, drop_and_retry, on_exception, after_response,
  exchange, send, attempt, request, Request, round, of_reply, choose, call_of,
}
use crate_python.Http.Client.Valid.{
  IsValid, get_server-server_pool, drop_server-server_pool, get_server-IsValid, drop_server-IsValid,
}
use crate_python.Http.Request.Measure.{
  IsSteady, usable, contains-last, drop_server-usable, get_server-usable,
}
use crate_python.Prelude.Dict.{lookup}
use crate_python.Http.Value.{Response, answered, raised, Reply}
use crate_python.Http.Server.{Server, HttpCall}
use crate_python.Http.Client.Turn.{next_turn_elim}
use crate_python.Prelude.{
  refl, zero, suc, true, false, [], contains, Text, List, ℕ, ◌≡◌, text_eq, ◌++◌, ◌<◌, ◌∷◌, length,
  ◌||◌, arith, text_eq_iff, none, some, Option, ◌≤◌, inl, inr, Bool-cases, ◌≢◌,
}
use crate_python.Http.Client.{
  Client, Down, get_server, restore, restore_step, next_turn, remove, Env, Config, drop_server,
}
use crate_python.Http.Client.Counts.{count, occurrences}

-- What is asked of the servers. The clock, the redirects and the connections are steady. One server
-- always answers the call, and never as unavailable; another may fail with an error of urllib3 or be
-- unavailable; and `R` holds of every response of an available server.
pub record IsServed (env : Env) (t₀ : ℕ) (server : Server) (call : HttpCall) (R : Response → Type 0)
    : Type 0 where
  pub steady : IsSteady env t₀
  pub healthy :
      (sent : List (Text × HttpCall))
      → (resp : Response) × (env.urlopen sent server call ≡ answered resp)
        × (srv_unavailable resp.status ≡ false)
  pub http_errors :
      (sent : List (Text × HttpCall)) (other : Server) (ex : Exn)
      → env.urlopen sent other call ≡ raised ex
      → issubclass ex.cls http_error ≡ true
  pub answers :
      (sent : List (Text × HttpCall)) (other : Server) (resp : Response)
      → env.urlopen sent other call ≡ answered resp
      → srv_unavailable resp.status ≡ false
      → R resp

-- The server is active, with its connection pool, and the pool of servers is valid.
pub record IsServing (good : Text) (server : Server) (c : Client) : Type 0 where
  pub good_active : contains good c.active ≡ true
  pub pooled : lookup good c.server_pool ≡ some server
  pub valid : IsValid c
