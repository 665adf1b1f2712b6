-- ===== src/Connection/Valid.antt =====
-- Asking the servers for their versions changes the client by requests alone.
use crate_python.Http.Client.Valid.{IsValid}
use crate_python.Exec.Keeps.{Keeps, keeps_rules}
use crate_python.Connection.{Parsed, version_at, lowest_loop, lowest_server_version}
use crate_python.Http.Methods.{server_infos}
use crate_python.Http.Request.{Request, request}
use crate_python.Http.Client.{Env, Config, Client}
use crate_python.Prelude.{[], ℕ, Option, Text, List, ◌∷◌}
use crate_python.Json
use crate_python.Http.Request.Valid.{request-IsValid}

module _ (lib : Json.Library) (env : Env) (cfg : Config) (fuel : ℕ) where
  request-Keeps-IsValid :
      (r : Request) (server : Option Text) → Keeps IsValid (request env cfg fuel r server)
  request-Keeps-IsValid r server = record { at = request-IsValid env cfg fuel r server }

  server_infos-Keeps : (server : Text) → Keeps IsValid (server_infos lib env cfg fuel server)
  unfolding server_infos
  server_infos-Keeps server = search (keeps_rules, request-Keeps-IsValid) depth 12

  version_at-Keeps : (server : Text) → Keeps IsValid (version_at lib env cfg fuel server)
  unfolding version_at
  version_at-Keeps server = search (keeps_rules, server_infos-Keeps) depth 12

  lowest_loop-Keeps :
      (servers : List Text) (lowest : Option Parsed)
      → Keeps IsValid (lowest_loop lib env cfg fuel servers lowest)
  unfolding lowest_loop
  lowest_loop-Keeps [] lowest = search (keeps_rules)
  lowest_loop-Keeps (s ∷ rest) lowest =
      search (keeps_rules, version_at-Keeps, lowest_loop-Keeps rest) depth 12

  lowest-Keeps : Keeps IsValid (lowest_server_version lib env cfg fuel)
  unfolding lowest_server_version
  lowest-Keeps = search (keeps_rules, lowest_loop-Keeps) depth 12

  -- However asking for the lowest server version ends, whatever the servers answer, the pool of
  -- servers stays valid.
  pub lowest_server_version-IsValid :
      (c : Client) → IsValid c → IsValid (lowest_server_version lib env cfg fuel c).1
  lowest_server_version-IsValid = lowest-Keeps.at
