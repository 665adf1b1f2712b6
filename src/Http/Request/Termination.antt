-- ===== src/Http/Request/Termination.antt =====
-- `_request` comes to an end: every round without an answer takes a server off the active list.
use crate_python.Prelude.Dict.{lookup}
use crate_python.Http.Server.{HttpCall, Server}
use crate_python.Exec.Ends.{
  EndsWith, Ends-bind, Ends-pure, Ends-if, Ends-case_option, Ends-raise, Ends-try_except,
  Ends-given, PostWith, Ends-weaken, Ends-or,
}
use crate_python.Http.Client.Rounds.{size, get_server_total}
use crate_python.Exec.{Exec, ◌>>=◌, case_option, Result, out_of_fuel, ok, err}
use crate_python.Http.Value.{Response, Reply, answered, raised}
use crate_python.Http.Request.{
  drop_and_retry, on_exception, after_response, preserve_server, Request, redirect_target, send,
  srv_unavailable, attempt, round, request, choose, of_reply, exchange, call_of,
}
use crate_python.Exceptions.{Exn, issubclass, http_error, builtin_error, connection_error_of}
use crate_python.Http.Request.Measure.{
  IsSteady, usable, drop_server-usable, get_server-usable, usable-le-size, contains-last,
}
use crate_python.Prelude.{
  none, some, true, false, [], ℕ, ◌<◌, Text, Option, length, List, ◌≡◌, ◌≤◌, refl, zero, suc, arith,
  inl, inr, ◌⊎◌, ◌≢◌, ◌++◌, ◌∷◌, contains,
}
use crate_python.Http.Client.{Env, Config, Client, drop_server, get_server}

module _ (env : Env) (cfg : Config) (t₀ : ℕ) (steady : IsSteady env t₀) where
  -- Before a round, with as many rounds of fuel left.
  abbrev Ready : ℕ → Client → Type 0
  Ready n c = (0 < length c.active) × (usable t₀ c ≤ n)

  -- In a round, once the server is chosen.
  abbrev Picked : ℕ → Text → Client → Type 0
  Picked n next c = (contains next c.active ≡ true) × (usable t₀ c ≤ suc n)

  abbrev Retries : ℕ → Option Response → Client → Type 0
  Retries n none c = Ready n c
  Retries n (some resp) c = Unit

  abbrev Anything : Exn → Client → Type 0
  Anything e c = Unit

  -- What the second `except` clause turns into a `ProgrammingError`.
  abbrev NoHttpError : Exn → Client → Type 0
  NoHttpError ex c = issubclass ex.cls http_error ≡ false

  -- What the `try` block raises: an error of urllib3 that is no reset, with the server still there,
  -- or another exception.
  abbrev Failure : ℕ → Text → Exn → Client → Type 0
  Failure n next ex c =
      Picked n next c × (preserve_server ex ≡ false) ⊎ (issubclass ex.cls http_error ≡ false)

  get_server-Picked :
      (n : ℕ) (c : Client) (s : Text) (rest : List Text)
      → (get_server env.time c).1.active ≡ rest ++ s ∷ []
      → usable t₀ (get_server env.time c).1 ≤ suc n
      → Picked n s (get_server env.time c).1
  get_server-Picked n c s rest e h = (rw e (contains-last s rest), h)

  get_server-Ends :
      (n : ℕ) (P : Client → Type 0)
      → ((c : Client) → P c → 0 < size c)
      → ((c : Client) → P c → usable t₀ (get_server env.time c).1 ≤ suc n)
      → EndsWith ⊥ P (get_server env.time) (Picked n) Anything
  get_server-Ends n P pos bound = record {
    at = λ c h.
        let (s, rest, e, f) = get_server_total env.time c (pos c h) in
        rw e (get_server-Picked n c s rest f (bound c h));
  }

  drop_server-Ends :
      (n : ℕ) (next message : Text)
      → EndsWith ⊥ (Picked n next) (drop_server env.time next message) (λ _. Ready n) NoHttpError
  unfolding drop_server connection_error_of issubclass
  drop_server-Ends n next message = record {
    at = λ c h. ground (arith, drop_server-usable t₀ env.time steady.since next message c h.0);
  }

  drop_and_retry-Ends :
      (n : ℕ) (next message : Text)
      → EndsWith ⊥ (Picked n next) (drop_and_retry env cfg next message) (Retries n) NoHttpError
  unfolding drop_and_retry
  drop_and_retry-Ends n next message =
      Ends-bind (λ _. Ready n) _ _ (drop_server-Ends n next message)
        (λ _. Ends-pure none (λ c h. h))

  on_exception-Ends :
      (n : ℕ) (next : Text) (ex : Exn)
      → preserve_server ex ≡ false
      → EndsWith ⊥ (Picked n next) (on_exception env cfg none next ex) (Retries n) Anything
  unfolding on_exception
  on_exception-Ends n next ex reset =
      Ends-if (issubclass ex.cls http_error) _ _
        (λ _.
          Ends-case_option none _ _
            (λ _.
              Ends-if (preserve_server ex) _ _ (λ e. absurd (cc (e, reset)))
                (λ _.
                  Ends-weaken _ (drop_and_retry-Ends n next _) (λ c h. h) (λ a c h. h)
                    (λ e c h. tt)))
            (λ s _. Ends-raise _ (λ c h. tt)))
        (λ _. Ends-raise _ (λ c h. tt))

  expected :
      (n : ℕ) (next : Text) (ex : Exn)
      → preserve_server ex ≡ false
      → EndsWith ⊥
          (λ c. Picked n next c × (preserve_server ex ≡ false))
          (on_exception env cfg none next ex)
          (Retries n)
          Anything
  expected n next ex reset =
      Ends-weaken _ (on_exception-Ends n next ex reset) (λ c h. h.0) (λ a c h. h) (λ e c h. h)

  unexpected :
      (n : ℕ) (next : Text) (ex : Exn)
      → EndsWith ⊥ (NoHttpError ex) (on_exception env cfg none next ex) (Retries n) Anything
  unfolding on_exception
  unexpected n next ex =
      Ends-given _ (λ c h. h)
        λ other.
          Ends-if (issubclass ex.cls http_error) _ _ (λ e. absurd (cc (e, other)))
            (λ _. Ends-raise _ (λ c h. tt))

  after_response-Ends :
      (n : ℕ) (follow : Text → Exec Client Response) (next : Text) (resp : Response)
      → redirect_target resp ≡ none
      → EndsWith ⊥
          (Picked n next)
          (after_response env cfg follow none next resp)
          (Retries n)
          NoHttpError
  unfolding after_response
  after_response-Ends n follow next resp stays =
      Ends-case_option (redirect_target resp) _ _
        (λ _.
          Ends-case_option none _ _
            (λ _.
              Ends-if (srv_unavailable resp.status) _ _
                (λ _. drop_and_retry-Ends n next resp.reason)
                (λ _. Ends-pure (some resp) (λ c h. tt)))
            (λ s _. Ends-pure (some resp) (λ c h. tt)))
        (λ location e. absurd (cc (e, stays)))

  replied :
      (n : ℕ) (next : Text) (sent : List (Text × HttpCall)) (server : Server) (call : HttpCall)
      (r : Reply) (c : Client)
      → env.urlopen sent server call ≡ r
      → Picked n next c
      → PostWith ⊥
          (λ resp c'. Picked n next c' × (redirect_target resp ≡ none))
          (Failure n next)
          (of_reply r)
          c
  replied n next sent server call (answered resp) c e h =
      (h, steady.no_redirect sent server call resp e)
  replied n next sent server call (raised ex) c e h = inl (h, steady.no_reset sent server call ex e)

  send-Ends :
      (n : ℕ) (next : Text) (r : Request)
      → EndsWith ⊥
          (Picked n next)
          (send env cfg next r)
          (λ resp c. Picked n next c × (redirect_target resp ≡ none))
          (Failure n next)
  unfolding send ◌>>=◌ issubclass builtin_error
  send-Ends n next r = record {
    at = λ c h.
        (Ends-case_option (lookup next c.server_pool) _ (exchange env cfg next r)
            (λ _. Ends-raise _ (λ c' h'. inr refl))
            (λ server _. record {
              at = λ c' h'. replied n next c'.sent server (call_of env cfg r) _ _ refl h';
            })).at
          c h;
  }

  attempt-Ends :
      (n : ℕ) (follow : Text → Exec Client Response) (r : Request) (next : Text)
      → EndsWith ⊥ (Picked n next) (attempt env cfg follow r none next) (Retries n) Anything
  unfolding attempt
  attempt-Ends n follow r next =
      Ends-try_except (Failure n next) _ _
        (Ends-bind (λ resp c. Picked n next c × (redirect_target resp ≡ none)) _ _
          (send-Ends n next r)
          (λ resp.
            Ends-given _ (λ c h. h.1)
              λ stays.
                Ends-weaken _ (after_response-Ends n follow next resp stays) (λ c h. h.0)
                  (λ a c h. h) (λ e c h. inr h)))
        (λ ex. Ends-or _ (Ends-given _ (λ c h. h.1) (expected n next ex)) (unexpected n next ex))

  round-Ends :
      (n : ℕ) (P : Client → Type 0) (follow : Text → Exec Client Response)
      (again : Exec Client Response) (r : Request)
      → EndsWith ⊥ P (get_server env.time) (Picked n) Anything
      → EndsWith ⊥ (Ready n) again (λ _ _. Unit) Anything
      → EndsWith ⊥ P (round env cfg follow again r none) (λ _ _. Unit) Anything
  unfolding round choose case_option
  round-Ends n P follow again r first ka = Ends-bind (Picked n) _ _ first λ next.
      Ends-bind (Retries n) _ _ (attempt-Ends n follow r next) λ outcome.
        Ends-case_option outcome _ _
          (λ e. Ends-weaken _ ka (λ c h. rw e at h) (λ a c h. h) (λ e' c h. h))
          (λ resp e. Ends-pure resp (λ c h. tt))

  request-Ready-Ends :
      (fuel : ℕ) (r : Request)
      → EndsWith ⊥ (Ready fuel) (request env cfg fuel r none) (λ _ _. Unit) Anything
  unfolding request
  request-Ready-Ends zero r = record { at = λ c h. absurd (omega arith) }
  request-Ready-Ends (suc fuel) r =
      round-Ends fuel (Ready (suc fuel)) (λ s. request env cfg fuel r (some s))
        (request env cfg fuel r none) r
        (get_server-Ends fuel (Ready (suc fuel)) (λ c h. omega arith)
          (λ c h. omega (arith, get_server-usable t₀ env.time steady.until c h.0)))
        (request-Ready-Ends fuel r)

settled :
    (r : Result Response) (c : Client)
    → PostWith ⊥ (λ _ _. Unit) (λ _ _. Unit) r c
    → r ≢ out_of_fuel
settled (ok resp) c h e = cc
settled (err ex) c h e = cc
settled out_of_fuel c h e = h

-- A request without a given server, of a client with a server, active or not, comes to an end, with a
-- response or an exception, after at most as many rounds as the client has servers: while the clock
-- moves by less than the retry interval, no server redirects, and no connection is reset or broken.
pub request_terminates :
    (env : Env) (cfg : Config) (t₀ : ℕ) (fuel : ℕ) (r : Request) (c : Client)
    → IsSteady env t₀
    → 0 < size c
    → size c ≤ fuel
    → (request env cfg fuel r none c).0 ≢ out_of_fuel
unfolding request
request_terminates env cfg t₀ zero r c steady pos enough = absurd (omega arith)
request_terminates env cfg t₀ (suc fuel) r c steady pos enough = settled _ _ (
    (round-Ends env cfg t₀ steady fuel (λ c. (0 < size c) × (size c ≤ suc fuel))
        (λ s. request env cfg fuel r (some s)) (request env cfg fuel r none) r
        (get_server-Ends env cfg t₀ steady fuel (λ c. (0 < size c) × (size c ≤ suc fuel))
          (λ c h. h.0) (λ c h. omega (arith, usable-le-size t₀ env.time steady.until c)))
        (request-Ready-Ends env cfg t₀ steady fuel r)).at
      c (pos, omega arith))
