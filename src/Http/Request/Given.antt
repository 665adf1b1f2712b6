-- ===== src/Http/Request/Given.antt =====
-- A request at a given server neither takes a server nor drops one.
use crate_python.Prelude.{
  ℕ, zero, suc, [], ◌∷◌, Option, none, some, List, Text, Bool, true, false, str, ◌++◌,
  if◌then◌else◌,
}
use crate_python.Exceptions.{Exn, builtin_error, value_error}
use crate_python.Exec.{Exec, Result, ok, err, modify, lift, pure, case_option, ◌>>=◌, ◌>>◌}
use crate_python.Exec.OnOk.{OnOk}
use crate_python.Exec.Keeps.{
  Keeps, keeps_rules, Keeps-modify, Keeps-diverge, Keeps-pure, Keeps-case_option, Keeps-bind,
}
use crate_python.Http.Value.{Response}
use crate_python.Http.Server.{HttpCall, Server}
use crate_python.Http.Url.{server_url, url_of, http_match, url_from}
use crate_python.Http.Client.{Client, Config, Env, add_server}
use crate_python.Http.Request.{
  Request, exchange, send, follow_to, after_response, on_exception, choose, attempt, round, request,
  redirect_target,
}

-- `bool(server)`
abbrev pub IsName : Text → Type 0
IsName [] = ⊥
IsName (c ∷ s) = Unit

abbrev pub AreNames : List Text → Type 0
AreNames [] = Unit
AreNames (s ∷ rest) = IsName s × AreNames rest

url_of-IsName : (scheme n : Text) → OnOk IsName (url_of scheme n)
unfolding url_of str
url_of-IsName scheme n = go scheme _
  where
    named : (t : Text) → IsName (t ++ (str "://" ++ n))
    named [] = tt
    named (c ∷ t) = tt

    go :
        (t : Text) (b : Bool)
        → OnOk IsName (
            if b
            then ok (t ++ (str "://" ++ n))
            else err (builtin_error value_error (str "Invalid IPv6 URL")))
    go t true = named t
    go t false = tt

pub server_url-IsName : (location : Text) → OnOk IsName (server_url location)
unfolding server_url
server_url-IsName location = go (http_match location)
  where
    go : (o : Option (Text × Text)) → OnOk IsName (url_from location o)
    go none = url_of-IsName _ _
    go (some (scheme, rest)) = url_of-IsName _ _

module _ {κ} (env : Env) (cfg : Config) (P : Client → Type κ)
    (at_add : (server : Text) (c : Client) → P c → P (add_server env cfg server c))
    (at_send : (sent : List (Text × HttpCall)) (c : Client)
      → P c
      → P (record c { sent = sent })) where
  exchange-Keeps : (next : Text) (r : Request) (s : Server) → Keeps P (exchange env cfg next r s)
  unfolding exchange
  exchange-Keeps next r s = search (keeps_rules, Keeps-modify, at_send) depth 8

  send-Keeps : (next : Text) (r : Request) → Keeps P (send env cfg next r)
  unfolding send
  send-Keeps next r = search (keeps_rules, exchange-Keeps)

  at_add-Keeps : (server : Text) → Keeps P (modify (add_server env cfg server))
  at_add-Keeps server = Keeps-modify _ (at_add server)

  on_exception-Keeps :
      (d : _) (s next : Text) (ex : Exn) → Keeps P (on_exception env cfg (some (d ∷ s)) next ex)
  unfolding on_exception case_option
  on_exception-Keeps d s next ex = search (keeps_rules)

  choose-Keeps : (d : _) (s : Text) → Keeps P (choose env cfg (some (d ∷ s)))
  unfolding choose case_option
  choose-Keeps d s = Keeps-pure (d ∷ s)

  module _ (follow : Text → Exec Client Response)
      (kf : (s : Text) → IsName s → Keeps P (follow s)) where
    added-Keeps :
        (s : Text)
        → IsName s
        → Keeps P (do modify (add_server env cfg s); resp ← follow s; pure (some resp))
    added-Keeps s h =
        Keeps-bind _ _ (at_add-Keeps s)
          (λ u. Keeps-bind _ _ (kf s h) (λ resp. Keeps-pure (some resp)))

    followed-Keeps :
        (r : Result Text)
        → OnOk IsName r
        → Keeps P (do
          redirect_server ← lift r
          modify (add_server env cfg redirect_server)
          resp ← follow redirect_server
          pure (some resp))
    unfolding lift ◌>>=◌
    followed-Keeps (ok s) h = record { at = (added-Keeps s h).at }
    followed-Keeps (err e) h = record { at = λ s p. p }
    followed-Keeps Result.out_of_fuel h = record { at = λ s p. p }

    answer-Keeps : (resp : Response) → Keeps P (pure {S = Client} (some resp))
    answer-Keeps resp = Keeps-pure (some resp)

    after_response-Keeps :
        (d : _) (s next : Text) (resp : Response)
        → Keeps P (after_response env cfg follow (some (d ∷ s)) next resp)
    unfolding after_response follow_to case_option pure
    after_response-Keeps d s next resp =
        Keeps-case_option (redirect_target resp) _ _ (answer-Keeps resp)
          (λ location. followed-Keeps (server_url location) (server_url-IsName location))

    attempt-Keeps :
        (r : Request) (d : _) (s next : Text)
        → Keeps P (attempt env cfg follow r (some (d ∷ s)) next)
    unfolding attempt
    attempt-Keeps r d s next =
        search (keeps_rules, send-Keeps, after_response-Keeps, on_exception-Keeps)

    round-Keeps :
        (again : Exec Client Response) (r : Request) (d : _) (s : Text)
        → Keeps P again
        → Keeps P (round env cfg follow again r (some (d ∷ s)))
    unfolding round
    round-Keeps again r d s ka = search (keeps_rules, choose-Keeps, attempt-Keeps) depth 8

  -- An invariant of adding a server and of sending is one of `_request` at a given server.
  pub request_given-Keeps :
      (fuel : ℕ) (r : Request) (s : Text) → IsName s → Keeps P (request env cfg fuel r (some s))
  unfolding request
  request_given-Keeps zero r s h = Keeps-diverge P
  request_given-Keeps (suc fuel) r [] h = absurd h
  request_given-Keeps (suc fuel) r (d ∷ s) h =
      round-Keeps _ (request_given-Keeps fuel r) _ r d s (request_given-Keeps fuel r (d ∷ s) h)
