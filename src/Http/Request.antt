-- ===== src/Http/Request.antt =====
-- client/http.py, `Client._request`: the loop that finds a server that answers.
pub mod Keeps
pub mod Ends
pub mod Failover
pub mod Given
pub mod Valid
pub mod Measure
pub mod Termination
use crate_python.Prelude.{
  ℕ, zero, suc, ◌++◌, Bool, false, ◌&&◌, ◌||◌, Option, none, some, List, [], ◌∷◌, Text, str, leb,
  ◌==◌, if◌then◌else◌,
}
use crate_python.Prelude.Dict.{lookup}
use crate_python.Exceptions.{
  ExcClass, Exn, http_error, protocol_error, connection_reset_error, broken_pipe_error, key_error,
  same_class, issubclass, builtin_error, connection_error_of, programming_error_of, ex_to_message,
}
use crate_python.Exec.{
  Result, ok, err, Exec, pure, raise, lift, gets, modify, case_option, diverge, try_except, ◌>>=◌,
  ◌>>◌,
}
use crate_python.Http.Value.{Response, Reply, answered, raised}
use crate_python.Http.SuperLen.{Body}
use crate_python.Http.Server.{HttpCall, server_request, Server}
use crate_python.Http.Url.{server_url}
use crate_python.Http.Client.{Client, Config, Env, add_server, get_server, drop_server}

-- The arguments of `_request`, without `server`.
pub record Request : Type 0 where
  pub method : Text
  pub path : Text
  pub body : Body
  pub stream : Bool

-- `SRV_UNAVAILABLE_STATUSES`
unfoldable pub srv_unavailable : ℕ → Bool
srv_unavailable status = status == 502 || (status == 503 || (status == 504 || status == 509))

-- `bool(server)`, and the server if it is one
abbrev pub given : Option Text → Option Text
given none = none
given (some []) = none
given (some (c ∷ s)) = some (c ∷ s)

-- The location that a response sends the client to.
abbrev redirects : Option Text → ℕ → Option Text
redirects none status = none
redirects (some location) status = if leb 300 status && leb status 308 then some location else none

unfoldable pub redirect_target : Response → Option Text
redirect_target resp = redirects (given resp.redirect_location) resp.status

any_preserving : List ExcClass → Bool
any_preserving [] = false
any_preserving (c ∷ args) =
    same_class connection_reset_error c || (same_class broken_pipe_error c || any_preserving args)

-- A broken connection says nothing of the server, so that it stays active.
unfoldable pub preserve_server : Exn → Bool
unfolding any_preserving issubclass same_class
preserve_server ex = issubclass ex.cls protocol_error && any_preserving ex.args

abbrev of_reply : Reply → Result Response
of_reply (answered resp) = ok resp
of_reply (raised ex) = err ex

module _ (env : Env) (cfg : Config) where
  abbrev pub call_of : Request → HttpCall
  call_of r =
      server_request r.method r.path r.body r.stream cfg.username cfg.password cfg.schema
        cfg.backoff_factor

  -- What urllib3 is handed is recorded, and its answer raised or returned.
  exchange : Text → Request → Server → Exec Client Response
  exchange next r server = do
    sent ← gets (λ c. c.sent)
    modify (λ c. record c { sent = c.sent ++ (next, call_of r) ∷ [] })
    lift (of_reply (env.urlopen sent server (call_of r)))

  -- `self.server_pool[next_server].request(…)`
  unfoldable pub send : Text → Request → Exec Client Response
  unfolding exchange
  send next r = do
    found ← gets (λ c. lookup next c.server_pool)
    case_option found (raise (builtin_error key_error next)) (exchange next r)

  -- `with self._lock: self._drop_server(…)`, and round the loop again
  pub drop_and_retry : Text → Text → Exec Client (Option Response)
  drop_and_retry next message = do drop_server env.time next message; pure none

  pub follow_to : (Text → Exec Client Response) → Text → Exec Client (Option Response)
  follow_to follow location = do
    redirect_server ← lift (server_url location)
    modify (add_server env cfg redirect_server)
    resp ← follow redirect_server
    pure (some resp)

  -- The rest of the `try` block. `follow` is the call of `_request` at the redirect's server;
  -- `none` goes round the loop again.
  unfoldable pub after_response :
      (Text → Exec Client Response) → Option Text → Text → Response → Exec Client (Option Response)
  unfolding drop_and_retry follow_to
  after_response follow server next resp =
      case_option (redirect_target resp)
        (case_option (given server)
          (if srv_unavailable resp.status
            then drop_and_retry next resp.reason
            else pure (some resp))
          (λ s. pure (some resp)))
        (follow_to follow)

  -- The two `except` clauses. `MaxRetryError`, `ReadTimeoutError`, `SSLError` and `ProxyError` are
  -- `HTTPError`s.
  unfoldable pub on_exception : Option Text → Text → Exn → Exec Client (Option Response)
  unfolding drop_and_retry
  on_exception server next ex =
      if issubclass ex.cls http_error
      then case_option (given server)
          (if preserve_server ex then pure none else drop_and_retry next (ex_to_message ex))
          (λ s.
            raise
              (connection_error_of (str "Server not available, exception: " ++ ex_to_message ex)))
      else raise (programming_error_of (ex_to_message ex) none)

  -- `server or self._get_server()`
  unfoldable pub choose : Option Text → Exec Client Text
  choose server = case_option (given server) (get_server env.time) pure

  -- The `try` statement, for the server that was chosen.
  unfoldable pub attempt :
      (Text → Exec Client Response) → Request → Option Text → Text → Exec Client (Option Response)
  unfolding send after_response on_exception
  attempt follow r server next =
      try_except (do resp ← send next r; after_response follow server next resp)
        (on_exception server next)

  -- One round: `again` is the rest of the loop.
  unfoldable pub round :
      (Text → Exec Client Response)
      → Exec Client Response
      → Request
      → Option Text
      → Exec Client Response
  unfolding choose attempt
  round follow again r server = do
    next ← choose server
    outcome ← attempt follow r server next
    case_option outcome again pure

  -- The loop, on fuel: the rounds and the redirects on the way.
  unfoldable pub request : ℕ → Request → Option Text → Exec Client Response
  unfolding round ◌>>=◌
  request zero r server c = diverge c
  request (suc fuel) r server c =
      round (λ s c'. request fuel r (some s) c') (λ c'. request fuel r server c') r server c
