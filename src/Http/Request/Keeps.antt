-- ===== src/Http/Request/Keeps.antt =====
-- What the parts of `_request` keep, however it ends: the loop's rule for invariants.
use crate_python.Prelude.{ℕ, zero, suc, Option, some, List, Text}
use crate_python.Exceptions.{Exn}
use crate_python.Exec.{Exec, modify}
use crate_python.Exec.Keeps.{Keeps, keeps_rules, Keeps-modify, Keeps-diverge}
use crate_python.Http.Value.{Response}
use crate_python.Http.Server.{HttpCall}
use crate_python.Http.Client.{Client, Config, Env, add_server, get_server, drop_server}
use crate_python.Http.Request.{
  Request, exchange, send, drop_and_retry, follow_to, after_response, on_exception, choose, attempt,
  round, request, Server,
}

-- The four ways in which a request changes the client keep `P`.
pub record IsKept {κ} (env : Env) (cfg : Config) (P : Client → Type κ) : Type κ where
  pub at_get : Keeps P (get_server env.time)
  pub at_drop : (server message : Text) → Keeps P (drop_server env.time server message)
  pub at_add : (server : Text) (c : Client) → P c → P (add_server env cfg server c)
  pub at_send : (sent : List (Text × HttpCall)) (c : Client) → P c → P (record c { sent = sent })

module _ {κ} (env : Env) (cfg : Config) (P : Client → Type κ) (k : IsKept env cfg P) where
  at_add-Keeps : (server : Text) → Keeps P (modify (add_server env cfg server))
  at_add-Keeps server = Keeps-modify _ (k.at_add server)

  exchange-Keeps : (next : Text) (r : Request) (s : Server) → Keeps P (exchange env cfg next r s)
  unfolding exchange
  exchange-Keeps next r s = search (keeps_rules, Keeps-modify, k.at_send) depth 8

  pub send-Keeps : (next : Text) (r : Request) → Keeps P (send env cfg next r)
  unfolding send
  send-Keeps next r = search (keeps_rules, exchange-Keeps)

  drop_and_retry-Keeps : (next message : Text) → Keeps P (drop_and_retry env cfg next message)
  unfolding drop_and_retry
  drop_and_retry-Keeps next message = search (keeps_rules, k.at_drop)

  on_exception-Keeps :
      (server : Option Text) (next : Text) (ex : Exn)
      → Keeps P (on_exception env cfg server next ex)
  unfolding on_exception
  on_exception-Keeps server next ex = search (keeps_rules, drop_and_retry-Keeps)

  choose-Keeps : (server : Option Text) → Keeps P (choose env cfg server)
  unfolding choose
  choose-Keeps server = search (keeps_rules, k.at_get)

  module _ (follow : Text → Exec Client Response) (kf : (s : Text) → Keeps P (follow s)) where
    follow_to-Keeps : (location : Text) → Keeps P (follow_to env cfg follow location)
    unfolding follow_to
    follow_to-Keeps location = search (keeps_rules, at_add-Keeps, kf) depth 8

    after_response-Keeps :
        (server : Option Text) (next : Text) (resp : Response)
        → Keeps P (after_response env cfg follow server next resp)
    unfolding after_response
    after_response-Keeps server next resp =
        search (keeps_rules, drop_and_retry-Keeps, follow_to-Keeps)

    attempt-Keeps :
        (r : Request) (server : Option Text) (next : Text)
        → Keeps P (attempt env cfg follow r server next)
    unfolding attempt
    attempt-Keeps r server next =
        search (keeps_rules, send-Keeps, after_response-Keeps, on_exception-Keeps)

    round-Keeps :
        (again : Exec Client Response) (r : Request) (server : Option Text)
        → Keeps P again
        → Keeps P (round env cfg follow again r server)
    unfolding round
    round-Keeps again r server ka = search (keeps_rules, choose-Keeps, attempt-Keeps) depth 8

  -- An invariant of the four changes is one of `_request`.
  pub request-Keeps :
      (fuel : ℕ) (r : Request) (server : Option Text) → Keeps P (request env cfg fuel r server)
  unfolding request
  request-Keeps zero r server = Keeps-diverge P
  request-Keeps (suc fuel) r server =
      round-Keeps _ (λ s. request-Keeps fuel r (some s)) _ r server (request-Keeps fuel r server)
