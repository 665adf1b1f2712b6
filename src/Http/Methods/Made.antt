-- ===== src/Http/Methods/Made.antt =====
-- `Client.__init__` makes a client whose pool of servers is valid.
use crate_python.Exec.OnOk.{OnOk, on_ok-OnOk, OnOk-any}
use crate_python.Exec.{ok}
use crate_python.Http.Server.{make_server, remove_certs_for_non_https, pool_kw_args}
use crate_python.Http.Client.Valid.{IsValid, has_key-create_server}
use crate_python.Http.Methods.{listed, Settings, make_client, chosen_servers, with_sockets}
use crate_python.Http.Value.{Value}
use crate_python.Prelude.Dict.{Dict, has_key, lookup-insert}
use crate_python.Http.Client.Counts.{count_down, count}
use crate_python.Http.Client.{update_server_pool, create_server, Env, Client, Config}
use crate_python.Prelude.{
  refl, true, [], inl, inr, List, Text, ◌≡◌, ◌<◌, ◌≤◌, ◌∷◌, arith, Bool-cases, text_eq, subst,
  text_eq_iff, sym, Bool, Option,
}

pub update_server_pool-lists :
    (env : Env) (servers : List Text) (kw : Dict Value) (c : Client)
    → ((update_server_pool env servers kw c).active ≡ c.active)
      × ((update_server_pool env servers kw c).inactive ≡ c.inactive)
unfolding update_server_pool create_server
update_server_pool-lists env [] kw c = (refl, refl)
update_server_pool-lists env (s ∷ rest) kw c = update_server_pool-lists env rest kw _

has_key-update_server_pool :
    (env : Env) (servers : List Text) (kw : Dict Value) (s : Text) (c : Client)
    → has_key s c.server_pool ≡ true
    → has_key s (update_server_pool env servers kw c).server_pool ≡ true
unfolding update_server_pool
has_key-update_server_pool env [] kw s c h = h
has_key-update_server_pool env (x ∷ rest) kw s c h =
    has_key-update_server_pool env rest kw s _ (has_key-create_server env x s kw c h)

has_key-created :
    (env : Env) (s : Text) (kw : Dict Value) (c : Client)
    → has_key s (create_server env s kw c).server_pool ≡ true
unfolding create_server
has_key-created env s kw c = ground (
  arith,
  lookup-insert s s (make_server env.platform s (remove_certs_for_non_https s kw)) c.server_pool,
  text_eq_iff s s,
)

-- Every server that the pools were made for has one.
has_key-listed :
    (env : Env) (servers : List Text) (kw : Dict Value) (s : Text) (c : Client)
    → 0 < count s servers
    → has_key s (update_server_pool env servers kw c).server_pool ≡ true
unfolding update_server_pool count
has_key-listed env [] kw s c h = ground arith
has_key-listed env (x ∷ rest) kw s c h = elim (Bool-cases (text_eq x s)) [
  | inl e ↦ has_key-update_server_pool env rest kw s _ (
      subst (λ y. has_key s (create_server env y kw c).server_pool ≡ true)
        (sym ((text_eq_iff x s).0 e)) (has_key-created env s kw c))
  | inr n ↦ has_key-listed env rest kw s _ (ground (arith, h, n))
]

made-IsValid :
    (env : Env) (servers : List Text) (kw : Dict Value)
    → ((s : Text) → count s (update_server_pool env servers kw (listed servers)).active ≤ 1)
    → IsValid (update_server_pool env servers kw (listed servers))
unfolding count_down
made-IsValid env servers kw u =
    let (a, i) = update_server_pool-lists env servers kw (listed servers) in
    record {
      heap = rw i tt;
      pooled =
          λ s n. has_key-listed env servers kw s (listed servers) (ground (arith, rw (a, i) at n));
      unique = λ s. ground (arith, u s, i);
    }

-- A client that is made of settings in which no server stands twice, as its URL is written out, has
-- a valid pool.
pub make_client-IsValid :
    (env : Env) (path_exists : Text → Bool) (environ : Option Text) (s : Settings) (cfg : Config)
    (c : Client)
    → make_client env path_exists environ s ≡ ok (cfg, c)
    → ((u : Text) → count u c.active ≤ 1)
    → IsValid c
unfolding make_client
make_client-IsValid env path_exists environ s cfg c e =
    subst (OnOk (λ m. ((u : Text) → count u m.1.active ≤ 1) → IsValid m.1)) e (
      on_ok-OnOk (λ servers. Unit) (λ m. ((u : Text) → count u m.1.active ≤ 1) → IsValid m.1)
        (chosen_servers s.servers) _ (OnOk-any (chosen_servers s.servers))
        (λ servers x.
          on_ok-OnOk (λ kw. Unit) (λ m. ((u : Text) → count u m.1.active ≤ 1) → IsValid m.1)
            (pool_kw_args path_exists environ s.verify_ssl_cert s.ca_cert s.cert_file s.key_file
              s.timeout s.pool_size)
            _ (OnOk-any _) (λ kw y. made-IsValid env servers (with_sockets s kw))))
