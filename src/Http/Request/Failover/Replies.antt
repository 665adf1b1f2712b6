-- ===== src/Http/Request/Failover/Replies.antt =====
-- What the chosen server can answer.
use crate_python.Http.Request.Failover.{IsServed}
use crate_python.Exceptions.{Exn, issubclass, http_error}
use crate_python.Http.Request.{srv_unavailable, redirect_target, preserve_server}
use crate_python.Http.Value.{Response, answered, raised}
use crate_python.Http.Server.{Server, HttpCall}
use crate_python.Prelude.{true, false, Text, List, ℕ, ◌≡◌, text_eq, none, inl, inr, Bool-cases}
use crate_python.Http.Client.{Env}

-- What is known of a response, and of an exception, of the server `next` that was chosen.
pub record IsReply (good : Text) (R : Response → Type 0) (next : Text) (resp : Response)
    : Type 0 where
  pub stays : redirect_target resp ≡ none
  pub reads : srv_unavailable resp.status ≡ false → R resp
  pub good_reads : text_eq next good ≡ true → srv_unavailable resp.status ≡ false

pub record IsFault (good next : Text) (ex : Exn) : Type 0 where
  pub no_reset : preserve_server ex ≡ false
  pub of_urllib3 : issubclass ex.cls http_error ≡ true
  pub other : text_eq next good ≡ false

module _ (env : Env) (t₀ : ℕ) (good : Text) (server : Server) (call : HttpCall)
    (R : Response → Type 0) (h : IsServed env t₀ server call R) where
  pub replied-answered :
      (next : Text) (sent : List (Text × HttpCall)) (srv : Server) (resp : Response)
      → env.urlopen sent srv call ≡ answered resp
      → (text_eq next good ≡ true → srv ≡ server)
      → IsReply good R next resp
  replied-answered next sent srv resp e same = record {
    stays = h.steady.no_redirect sent srv call resp e;
    reads = h.answers sent srv resp e;
    good_reads = λ g.
        let (found, f, available) = h.healthy sent in
        let this : answered found ≡ answered resp = cc (e, f, same g) in cc (this, available);
  }

  pub replied-raised :
      (next : Text) (sent : List (Text × HttpCall)) (srv : Server) (ex : Exn)
      → env.urlopen sent srv call ≡ raised ex
      → (text_eq next good ≡ true → srv ≡ server)
      → IsFault good next ex
  replied-raised next sent srv ex e same = record {
    no_reset = h.steady.no_reset sent srv call ex e;
    of_urllib3 = h.http_errors sent srv ex e;
    other = elim (Bool-cases (text_eq next good)) [
      | inl g ↦ (let (found, f, available) = h.healthy sent in absurd (cc (e, f, same g)))
      | inr other ↦ other
    ];
  }
