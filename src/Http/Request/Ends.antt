-- ===== src/Http/Request/Ends.antt =====
-- How `_request` can end: which responses it returns and which exceptions it raises.
use crate_python.Exec.Keeps.{Keeps-lift, Keeps-modify}
use crate_python.Http.Client.Valid.{add_server-lists}
use crate_python.Exec.{Exec, err}
use crate_python.Http.Request.{
  redirect_target, choose, drop_and_retry, on_exception, request, follow_to, after_response,
  attempt, round, Request, given, srv_unavailable, preserve_server,
}
use crate_python.Http.Client.Rounds.{get_server-size, drop_server-size, size, get_server_total}
use crate_python.Exec.Ends.{
  Ends, Ends-errors, Ends-case_option, Ends-bind, Ends-pure, Ends-if, Ends-Keeps, Ends-try_except,
  Ends-weaken, Ends-diverge, Post, Ends-raise,
}
use crate_python.Http.Request.Keeps.{IsKept, send-Keeps}
use crate_python.Http.Value.{Response}
use crate_python.Prelude.{
  refl, zero, suc, Option, Text, arith, ◌<◌, ◌≡◌, some, ◌⊎◌, none, ℕ, inl, suc, inr,
}
use crate_python.Exceptions.{
  Exn, connection_error, programming_error, connection_error_of, programming_error_of, issubclass,
  http_error,
}
use crate_python.Http.Client.{Client, Env, Config, get_server, drop_server}

pub record HasServers (c : Client) : Type 0 where
  pub some_server : 0 < size c

-- One of the two exceptions of the client that a request raises.
abbrev pub IsRequestError : Exn → Type 0
IsRequestError e = (e.cls ≡ connection_error) ⊎ (e.cls ≡ programming_error)

abbrev Raises : Exn → Client → Type 0
Raises e c = HasServers c × IsRequestError e

-- No redirect is left to follow, and no answer of an unavailable server, if the client chose it.
abbrev IsAnswer : Option Text → Option Response → Type 0
IsAnswer server none = Unit
IsAnswer server (some resp) = redirect_target resp ≡ none

abbrev Answers : Option Text → Option Response → Client → Type 0
Answers server resp c = HasServers c × IsAnswer server resp

module _ (env : Env) (cfg : Config) where
  HasServers-IsKept : IsKept env cfg HasServers
  HasServers-IsKept = record {
    at_get = record {
      at = λ c h. record { some_server = omega (arith, get_server-size env.time c, h.some_server) };
    };
    at_drop = λ s m. record {
      at = λ c h. record {
        some_server = omega (arith, drop_server-size env.time s m c, h.some_server);
      };
    };
    at_add = λ s c h.
        let (a, i) = add_server-lists env cfg s c in
        record { some_server = rw (a, i) h.some_server };
    at_send = λ sent c h. record { some_server = h.some_server };
  }

  get_server-Ends : Ends HasServers (get_server env.time) (λ _. HasServers) Raises
  get_server-Ends =
      Ends-errors IsRequestError _ HasServers-IsKept.at_get
        λ c e h q. let total = get_server_total env.time c h.some_server in cc (q, total.2)

  drop_server-raises :
      (s m : Text) (c : Client) (e : Exn)
      → (drop_server env.time s m c).0 ≡ err e
      → e.cls ≡ connection_error
  unfolding drop_server connection_error_of
  drop_server-raises s m c e q = ground arith

  drop_server-Ends :
      (s m : Text) → Ends HasServers (drop_server env.time s m) (λ _. HasServers) Raises
  drop_server-Ends s m =
      Ends-errors IsRequestError _ (HasServers-IsKept.at_drop s m)
        λ c e h q. inl (drop_server-raises s m c e q)

  choose-Ends :
      (server : Option Text) → Ends HasServers (choose env cfg server) (λ _. HasServers) Raises
  unfolding choose
  choose-Ends server =
      Ends-case_option (given server) _ _ (λ _. get_server-Ends) (λ s _. Ends-pure s (λ c h. h))

  drop_and_retry-Ends :
      (server : Option Text) (next message : Text)
      → Ends HasServers (drop_and_retry env cfg next message) (Answers server) Raises
  unfolding drop_and_retry
  drop_and_retry-Ends server next message =
      Ends-bind _ _ _ (drop_server-Ends next message) (λ _. Ends-pure none (λ c h. (h, tt)))

  on_exception-Ends :
      (server : Option Text) (next : Text) (e : Exn)
      → Ends HasServers (on_exception env cfg server next e) (Answers server) Raises
  unfolding on_exception programming_error_of connection_error_of
  on_exception-Ends server next e =
      Ends-if (issubclass e.cls http_error) _ _
        (λ _.
          Ends-case_option (given server) _ _
            (λ _.
              Ends-if (preserve_server e) _ _ (λ _. Ends-pure none (λ c h. (h, tt)))
                (λ _. drop_and_retry-Ends server next _))
            (λ s _. Ends-raise _ (λ c h. (h, inl refl))))
        (λ _. Ends-raise _ (λ c h. (h, inr refl)))

  module _ (follow : Text → Exec Client Response)
      (kf : (s : Text)
        → Ends HasServers (follow s) (λ resp. Answers none (some resp)) (λ _. HasServers)) where
    follow_to-Ends :
        (server : Option Text) (location : Text)
        → Ends HasServers (follow_to env cfg follow location) (Answers server) (λ _. HasServers)
    unfolding follow_to
    follow_to-Ends server location =
        Ends-bind (λ _. HasServers) _ _ (Ends-Keeps _ (Keeps-lift _))
          λ s.
            Ends-bind (λ _. HasServers) _ _
              (Ends-Keeps _ (Keeps-modify _ (HasServers-IsKept.at_add s)))
              λ _.
                Ends-bind (λ resp. Answers none (some resp)) _ _ (kf s)
                  λ resp. Ends-pure (some resp) (λ c h. h)

    after_response-Ends :
        (server : Option Text) (next : Text) (resp : Response)
        → Ends HasServers
            (after_response env cfg follow server next resp)
            (Answers server)
            (λ _. HasServers)
    unfolding after_response
    after_response-Ends server next resp =
        Ends-case_option (redirect_target resp) _ _
          (λ stays.
            Ends-case_option (given server) _ _
              (λ _.
                Ends-if (srv_unavailable resp.status) _ _
                  (λ _.
                    Ends-weaken _ (drop_and_retry-Ends server next resp.reason) (λ c h. h)
                      (λ a c h. h) (λ e c h. h.0))
                  (λ _. Ends-pure (some resp) (λ c h. (h, stays))))
              (λ s _. Ends-pure (some resp) (λ c h. (h, stays))))
          (λ location _. follow_to-Ends server location)

    attempt-Ends :
        (r : Request) (server : Option Text) (next : Text)
        → Ends HasServers (attempt env cfg follow r server next) (Answers server) Raises
    unfolding attempt
    attempt-Ends r server next =
        Ends-try_except (λ _. HasServers) _ _
          (Ends-bind (λ _. HasServers) _ _
            (Ends-Keeps _ (send-Keeps env cfg HasServers HasServers-IsKept next r))
            (λ resp. after_response-Ends server next resp))
          (λ e. on_exception-Ends server next e)

    round-Ends :
        (again : Exec Client Response) (r : Request) (server : Option Text)
        → Ends HasServers again (λ resp. Answers server (some resp)) Raises
        → Ends HasServers
            (round env cfg follow again r server)
            (λ resp. Answers server (some resp))
            Raises
    unfolding round
    round-Ends again r server ka =
        Ends-bind (λ _. HasServers) _ _ (choose-Ends server)
          λ next. Ends-bind (Answers server) _ _ (attempt-Ends r server next) λ outcome.
            Ends-case_option outcome _ _
              (λ _. Ends-weaken _ ka (λ c h. h.0) (λ a c h. h) (λ e c h. h))
              (λ resp e. Ends-pure resp (λ c h. (h.0, rw e at h.1)))

  request-Ends :
      (fuel : ℕ) (r : Request) (server : Option Text)
      → Ends HasServers (request env cfg fuel r server) (λ resp. Answers server (some resp)) Raises
  unfolding request
  request-Ends zero r server = Ends-diverge _ _ _
  request-Ends (suc fuel) r server =
      round-Ends _
        (λ s. Ends-weaken _ (request-Ends fuel r (some s)) (λ c h. h) (λ a c h. h) (λ e c h. h.0)) _
        r server (request-Ends fuel r server)

-- A request of a client that has a server, active or not, raises nothing but a `ConnectionError` or
-- a `ProgrammingError` of the client, whatever urllib3 raises. A response that it returns asks for
-- no further redirect, and the client still has a server, however the request ends.
pub request-ends_well :
    (env : Env) (cfg : Config) (fuel : ℕ) (r : Request) (server : Option Text) (c : Client)
    → 0 < size c
    → Post
        (λ resp c'. (0 < size c') × (redirect_target resp ≡ none))
        (λ e c'. (0 < size c') × IsRequestError e)
        (request env cfg fuel r server c).0
        (request env cfg fuel r server c).1
request-ends_well env cfg fuel r server c h =
    (Ends-weaken _ (request-Ends env cfg fuel r server) (λ c h. record { some_server = h })
        (λ a c h. (h.0.some_server, h.1)) (λ e c h. (h.0.some_server, h.1))).at
      c h
