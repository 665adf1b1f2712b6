-- ===== src/Http/Request/Failover/Found.antt =====
-- A request is answered as long as one active server is.
use crate_python.Exec.Runs.{returned}
use crate_python.Http.Request.Failover.{IsServed, IsServing}
use crate_python.Http.Request.Failover.Kept.{
  size-IsServing, get_server-IsServing, drop_server-IsServing, drop_server-returns, contains-count,
}
use crate_python.Http.Request.Failover.Replies.{IsReply, IsFault, replied-answered, replied-raised}
use crate_python.Exec.{ok, Exec, ◌>>=◌, gets, modify, case_option, lift}
use crate_python.Exec.Ends.{
  EndsWith, Ends-bind, Ends-if, Ends-pure, Ends-case_option, PostWith, Ends-try_except, Ends-given,
  Ends-weaken,
}
use crate_python.Http.Client.Rounds.{get_server_total, size}
use crate_python.Exceptions.{Exn, issubclass, http_error}
use crate_python.Http.Request.{
  srv_unavailable, redirect_target, preserve_server, drop_and_retry, on_exception, after_response,
  exchange, send, attempt, request, Request, round, of_reply, choose, call_of,
}
use crate_python.Http.Request.Measure.{
  usable, contains-last, drop_server-usable, get_server-usable, old-le,
}
use crate_python.Prelude.Dict.{lookup}
use crate_python.Http.Value.{Response, answered, raised, Reply}
use crate_python.Http.Server.{Server, HttpCall}
use crate_python.Prelude.{
  refl, zero, suc, true, false, contains, Text, List, ℕ, ◌≡◌, text_eq, ◌<◌, arith, text_eq_iff,
  none, some, Option, ◌≤◌, ◌≢◌,
}
use crate_python.Http.Client.{Client, get_server, Env, Config, drop_server}
use crate_python.Http.Client.Counts.{occurrences}

module _ (env : Env) (cfg : Config) (t₀ : ℕ) (good : Text) (server : Server) (r : Request)
    (R : Response → Type 0) (h : IsServed env t₀ server (call_of env cfg r) R) where
  abbrev Ready : ℕ → Client → Type 0
  Ready n c = IsServing good server c × (usable t₀ c < n)

  abbrev Picked : ℕ → Text → Client → Type 0
  Picked n next c = IsServing good server c × (contains next c.active ≡ true) × (usable t₀ c ≤ n)

  abbrev Answered : Response → Client → Type 0
  Answered resp c = IsServing good server c × (srv_unavailable resp.status ≡ false) × R resp

  abbrev Retries : ℕ → Option Response → Client → Type 0
  Retries n none c = Ready n c
  Retries n (some resp) c = Answered resp c

  abbrev Never : Exn → Client → Type 0
  Never e c = ⊥

  get_server-Ends : (n : ℕ) → EndsWith ⊥ (Ready (suc n)) (get_server env.time) (Picked n) Never
  get_server-Ends n = record {
    at = λ c s.
        let some_active = size-IsServing env good server c s.0 in
        let (next, rest, e, f) = get_server_total env.time c (omega (arith, some_active)) in
        rw e (
          get_server-IsServing env good server c s.0,
          rw f (contains-last next rest),
          omega (arith, get_server-usable t₀ env.time h.steady.until c some_active, s.1),
        );
  }

  drop_server-Ends :
      (n : ℕ) (next message : Text)
      → text_eq next good ≡ false
      → EndsWith ⊥ (Picked n next) (drop_server env.time next message) (λ _. Ready n) Never
  drop_server-Ends n next message other = record {
    at = λ c s.
        let serving = drop_server-IsServing env good server next message c other s.0 in
        rw (drop_server-returns env.time good next message c serving.good_active) (
          serving,
          omega (arith, drop_server-usable t₀ env.time h.steady.since next message c s.1, s.2),
        );
  }

  drop_and_retry-Ends :
      (n : ℕ) (next message : Text)
      → text_eq next good ≡ false
      → EndsWith ⊥ (Picked n next) (drop_and_retry env cfg next message) (Retries n) Never
  unfolding drop_and_retry
  drop_and_retry-Ends n next message other =
      Ends-bind (λ _. Ready n) _ _ (drop_server-Ends n next message other)
        (λ _. Ends-pure none (λ c s. s))

  on_exception-Ends :
      (n : ℕ) (next : Text) (ex : Exn)
      → IsFault good next ex
      → EndsWith ⊥ (Picked n next) (on_exception env cfg none next ex) (Retries n) Never
  unfolding on_exception
  on_exception-Ends n next ex fault =
      Ends-if (issubclass ex.cls http_error) _ _
        (λ _.
          Ends-case_option none _ _
            (λ _.
              Ends-if (preserve_server ex) _ _ (λ e. absurd (cc (e, fault.no_reset)))
                (λ _. drop_and_retry-Ends n next _ fault.other))
            (λ s e. absurd (cc e)))
        (λ e. absurd (cc (e, fault.of_urllib3)))

  after_response-Ends :
      (n : ℕ) (follow : Text → Exec Client Response) (next : Text) (resp : Response)
      → IsReply good R next resp
      → EndsWith ⊥ (Picked n next) (after_response env cfg follow none next resp) (Retries n) Never
  unfolding after_response
  after_response-Ends n follow next resp reply =
      Ends-case_option (redirect_target resp) _ _
        (λ _.
          Ends-case_option none _ _
            (λ _.
              Ends-if (srv_unavailable resp.status) _ _
                (λ e. drop_and_retry-Ends n next resp.reason (ground (arith, e, reply.good_reads)))
                (λ e. Ends-pure (some resp) (λ c s. (s.0, e, reply.reads e))))
            (λ s e. absurd (cc e)))
        (λ location e. absurd (cc (e, reply.stays)))

  replied :
      (n : ℕ) (next : Text) (sent : List (Text × HttpCall)) (srv : Server) (reply : Reply)
      (c : Client)
      → env.urlopen sent srv (call_of env cfg r) ≡ reply
      → (text_eq next good ≡ true → srv ≡ server)
      → Picked n next c
      → PostWith ⊥
          (λ resp c'. Picked n next c' × IsReply good R next resp)
          (λ ex c'. Picked n next c' × IsFault good next ex)
          (of_reply reply)
          c
  replied n next sent srv (answered resp) c e same s =
      (s, replied-answered env t₀ good server (call_of env cfg r) R h next sent srv resp e same)
  replied n next sent srv (raised ex) c e same s =
      (s, replied-raised env t₀ good server (call_of env cfg r) R h next sent srv ex e same)

  sent-Picked :
      (n : ℕ) (next : Text) (sent : List (Text × HttpCall)) (c : Client)
      → Picked n next c
      → Picked n next (record c { sent = sent })
  sent-Picked n next sent c s = (
    record {
      good_active = s.0.good_active;
      pooled = s.0.pooled;
      valid = record {
        heap = s.0.valid.heap;
        pooled = s.0.valid.pooled;
        unique = s.0.valid.unique;
      };
    },
    s.1,
    s.2,
  )

  exchange-Ends :
      (n : ℕ) (next : Text) (srv : Server)
      → (text_eq next good ≡ true → srv ≡ server)
      → EndsWith ⊥
          (Picked n next)
          (exchange env cfg next r srv)
          (λ resp c. Picked n next c × IsReply good R next resp)
          (λ ex c. Picked n next c × IsFault good next ex)
  unfolding exchange ◌>>=◌ gets modify lift
  exchange-Ends n next srv same = record {
    at = λ c s. replied n next c.sent srv _ _ refl same (sent-Picked n next _ c s);
  }

  no_pool : (n : ℕ) (next : Text) (c : Client) → Picked n next c → lookup next c.server_pool ≢ none
  no_pool n next c s e =
      let listed : 0 < occurrences next c = omega (arith, contains-count next c.active s.1) in
      ground (arith, e, s.0.valid.pooled next listed)

  same_server :
      (n : ℕ) (next : Text) (c : Client) (srv : Server)
      → Picked n next c
      → lookup next c.server_pool ≡ some srv
      → text_eq next good ≡ true
      → srv ≡ server
  same_server n next c srv s e g =
      let same : next ≡ good = ground (arith, g, text_eq_iff next good) in cc (e, s.0.pooled, same)

  send-Ends :
      (n : ℕ) (next : Text)
      → EndsWith ⊥
          (Picked n next)
          (send env cfg next r)
          (λ resp c. Picked n next c × IsReply good R next resp)
          (λ ex c. Picked n next c × IsFault good next ex)
  unfolding send ◌>>=◌ gets
  send-Ends n next = record {
    at = λ c s.
        (Ends-case_option (lookup next c.server_pool) _ (exchange env cfg next r)
            (λ e. absurd (no_pool n next c s e))
            (λ srv e. exchange-Ends n next srv (same_server n next c srv s e))).at
          c s;
  }

  attempt-Ends :
      (n : ℕ) (follow : Text → Exec Client Response) (next : Text)
      → EndsWith ⊥ (Picked n next) (attempt env cfg follow r none next) (Retries n) Never
  unfolding attempt
  attempt-Ends n follow next =
      Ends-try_except (λ ex c. Picked n next c × IsFault good next ex) _ _
        (Ends-bind (λ resp c. Picked n next c × IsReply good R next resp) _ _ (send-Ends n next)
          (λ resp.
            Ends-given _ (λ c s. s.1)
              λ reply.
                Ends-weaken _ (after_response-Ends n follow next resp reply) (λ c s. s.0)
                  (λ a c s. s) (λ e c s. absurd s)))
        (λ ex.
          Ends-given _ (λ c s. s.1)
            λ fault.
              Ends-weaken _ (on_exception-Ends n next ex fault) (λ c s. s.0) (λ a c s. s)
                (λ e c s. s))

  request-Ends : (fuel : ℕ) → EndsWith ⊥ (Ready fuel) (request env cfg fuel r none) Answered Never
  unfolding request round choose case_option
  request-Ends zero = record { at = λ c s. absurd (omega arith) }
  request-Ends (suc fuel) = Ends-bind (Picked fuel) _ _ (get_server-Ends fuel) λ next.
      Ends-bind (Retries fuel) _ _ (attempt-Ends fuel (λ s. request env cfg fuel r (some s)) next)
        λ outcome.
          Ends-case_option outcome _ _
            (λ e. Ends-weaken _ (request-Ends fuel) (λ c s. rw e at s) (λ a c s. s) (λ e' c s. s))
            (λ resp e. Ends-pure resp (λ c s. rw e at s))

-- As long as one active server of a valid pool always answers the call, and each response of an
-- available server has `R`, a request without a given server returns a response that is not of the
-- statuses of an unavailable server and has `R`, whatever the other servers do; the pool is valid
-- afterwards, and the server that always answers is active in it, with its connection pool. The clock
-- moves by less than the retry interval, no server redirects, no connection is reset, errors are
-- urllib3's, and there is fuel for a round for each server.
pub request-fails_over :
    (env : Env) (cfg : Config) (t₀ : ℕ) (good : Text) (server : Server) (r : Request)
    (R : Response → Type 0) (fuel : ℕ) (c : Client)
    → IsServed env t₀ server (call_of env cfg r) R
    → IsServing good server c
    → size c < fuel
    → (resp : Response) × ((request env cfg fuel r none c).0 ≡ ok resp)
      × IsServing good server (request env cfg fuel r none c).1
      × (srv_unavailable resp.status ≡ false)
      × R resp
request-fails_over env cfg t₀ good server r R fuel c h serving enough =
    let (resp, e, found) = returned (Answered env cfg t₀ good server r R h) _ _ (
      (request-Ends env cfg t₀ good server r R h fuel).at c
        (serving, omega (arith, old-le t₀ c.inactive, enough))) in
    (resp, e, found.0, found.1, found.2)
