-- ===== src/Http/Methods/Named.antt =====
-- The servers of a client that is made of settings have names.
use crate_python.Prelude.{[], ◌∷◌, List, Text, Option, none, some, ◌≡◌, subst, sym, str, Bool}
use crate_python.Exec.{Result, ok, err}
use crate_python.Exec.OnOk.{OnOk, on_ok-OnOk, OnOk-any}
use crate_python.Http.Server.{pool_kw_args}
use crate_python.Http.Url.{Servers, one_text, many, server_url, server_urls, to_server_list, split}
use crate_python.Http.Client.{Env, Config, Client}
use crate_python.Http.Request.Given.{IsName, AreNames, server_url-IsName}
use crate_python.Http.Methods.{Settings, make_client, chosen_servers, with_sockets, listed}
use crate_python.Http.Methods.Made.{update_server_pool-lists}

server_urls-AreNames : (servers : List Text) → OnOk AreNames (server_urls servers)
unfolding server_urls
server_urls-AreNames [] = tt
server_urls-AreNames (s ∷ rest) =
    go (server_url s) (server_urls rest) (server_url-IsName s) (server_urls-AreNames rest)
  where
    go :
        (r : Result Text) (rs : Result (List Text))
        → OnOk IsName r
        → OnOk AreNames rs
        → OnOk AreNames (elim r [
          | ok url ↦ elim rs [
            | ok urls ↦ ok (url ∷ urls)
            | err e ↦ err e
            | Result.out_of_fuel ↦ Result.out_of_fuel
          ]
          | err e ↦ err e
          | Result.out_of_fuel ↦ Result.out_of_fuel
        ])
    go (ok url) (ok urls) h hs = (h, hs)
    go (ok url) (err e) h hs = tt
    go (ok url) Result.out_of_fuel h hs = tt
    go (err e) rs h hs = tt
    go Result.out_of_fuel rs h hs = tt

chosen_servers-AreNames : (servers : Option Servers) → OnOk AreNames (chosen_servers servers)
unfolding chosen_servers to_server_list str
chosen_servers-AreNames none = (tt, tt)
chosen_servers-AreNames (some (one_text [])) = (tt, tt)
chosen_servers-AreNames (some (many [])) = (tt, tt)
chosen_servers-AreNames (some (one_text (c ∷ t))) = server_urls-AreNames (split (c ∷ t))
chosen_servers-AreNames (some (many (s ∷ rest))) = server_urls-AreNames (s ∷ rest)

-- Every server of a client that is made of settings has a name.
pub make_client-AreNames :
    (env : Env) (path_exists : Text → Bool) (environ : Option Text) (s : Settings) (cfg : Config)
    (c : Client)
    → make_client env path_exists environ s ≡ ok (cfg, c)
    → AreNames c.active
unfolding make_client
make_client-AreNames env path_exists environ s cfg c e = subst (OnOk (λ m. AreNames m.1.active)) e (
    on_ok-OnOk AreNames (λ m. AreNames m.1.active) (chosen_servers s.servers) _
      (chosen_servers-AreNames s.servers)
      (λ servers names.
        on_ok-OnOk (λ kw. Unit) (λ m. AreNames m.1.active)
          (pool_kw_args path_exists environ s.verify_ssl_cert s.ca_cert s.cert_file s.key_file
            s.timeout s.pool_size)
          _ (OnOk-any _)
          (λ kw y.
            subst AreNames
              (sym (update_server_pool-lists env servers (with_sockets s kw) (listed servers)).0)
              names)))
