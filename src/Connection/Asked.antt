-- ===== src/Connection/Asked.antt =====
-- Asking the servers for their versions, each at its own URL, leaves the lists of servers alone.
use crate_python.Prelude.{
  [], ◌∷◌, ℕ, Option, none, some, List, Text, ◌≡◌, refl, arith, text_eq_iff, ◌∙◌,
}
use crate_python.Prelude.Dict.{lookup, lookup-insert}
use crate_python.Exec.{◌>>=◌, gets}
use crate_python.Exec.Keeps.{Keeps, keeps_rules, Keeps-bind, Keeps-pure, Keeps-try_except}
use crate_python.Json
use crate_python.Http.Server.{HttpCall, Server, make_server, remove_certs_for_non_https}
use crate_python.Http.Client.{Env, Config, Client, add_server, create_server}
use crate_python.Http.Client.Valid.{add_server-lists}
use crate_python.Http.Request.{Request, request}
use crate_python.Http.Request.Given.{IsName, AreNames, request_given-Keeps}
use crate_python.Http.Methods.{server_infos}
use crate_python.Connection.{Parsed, version_at, lowest_loop, lowest_server_version}

-- The lists are these, and a server has this connection pool.
abbrev pub IsAsIn : Client → Text → Option Server → Client → Type 0
IsAsIn c good pool d =
    (d.active ≡ c.active) × (d.inactive ≡ c.inactive) × (lookup good d.server_pool ≡ pool)

module _ (lib : Json.Library) (env : Env) (cfg : Config) (fuel : ℕ) where
  module _ (P : Client → Type 0)
      (at_add : (server : Text) (c : Client) → P c → P (add_server env cfg server c))
      (at_send : (sent : List (Text × HttpCall)) (c : Client)
        → P c
        → P (record c { sent = sent })) where
    at_request : (r : Request) (s : Text) → IsName s → Keeps P (request env cfg fuel r (some s))
    at_request r s h = request_given-Keeps env cfg P at_add at_send fuel r s h

    infos-Keeps : (s : Text) → IsName s → Keeps P (server_infos lib env cfg fuel s)
    unfolding server_infos
    infos-Keeps s h = search (keeps_rules, at_request _ s h) depth 12

    asked-Keeps : (s : Text) → IsName s → Keeps P (version_at lib env cfg fuel s)
    unfolding version_at
    asked-Keeps s h =
        Keeps-try_except _ _ (Keeps-bind _ _ (infos-Keeps s h) (λ info. search (keeps_rules)))
          (λ e. search (keeps_rules))

    loop-Keeps :
        (servers : List Text) (lowest : Option Parsed)
        → AreNames servers
        → Keeps P (lowest_loop lib env cfg fuel servers lowest)
    unfolding lowest_loop
    loop-Keeps [] lowest h = search (keeps_rules)
    loop-Keeps (s ∷ rest) lowest (h, hs) =
        Keeps-bind _ _ (asked-Keeps s h)
          (λ v. Keeps-bind _ _ (search (keeps_rules)) (λ lower. loop-Keeps rest lower hs))

    lowest-Keeps :
        (c : Client) → AreNames c.active → P c → P (lowest_server_version lib env cfg fuel c).1
    unfolding lowest_server_version ◌>>=◌ gets
    lowest-Keeps c h p =
        (Keeps-bind _ _ (loop-Keeps c.active none h) (λ lowest. Keeps-pure _)).at c p

  add_server-pool :
      (s good : Text) (server : Server) (c : Client)
      → lookup good c.server_pool ≡ some server
      → lookup good (add_server env cfg s c).server_pool ≡ some server
  unfolding add_server create_server
  add_server-pool s good server c h = ground (
    arith,
    text_eq_iff s good,
    lookup-insert s good (make_server env.platform s (remove_certs_for_non_https s cfg.pool_kw))
        c.server_pool,
  )

  -- Whatever the servers answer when they are asked for their versions, the lists of active and of
  -- failed servers are afterwards as before, also in their order, and a server that had a connection
  -- pool has the same pool. The active servers have names.
  pub lowest_server_version-IsAsIn :
      (c : Client) (good : Text) (server : Server)
      → AreNames c.active
      → lookup good c.server_pool ≡ some server
      → IsAsIn c good (some server) (lowest_server_version lib env cfg fuel c).1
  lowest_server_version-IsAsIn c good server h p =
      lowest-Keeps (IsAsIn c good (some server))
        (λ s d (a, i, l).
          let (a', i') = add_server-lists env cfg s d in
          (a' ∙ a, i' ∙ i, add_server-pool s good server d l))
        (λ sent d k. k) c h (refl, refl, p)
