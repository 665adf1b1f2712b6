-- ===== src/Http/Request/Valid.antt =====
-- `_request` keeps the pool of servers valid.
use crate_python.Http.Request.{Request, request}
use crate_python.Prelude.{ℕ, Option, Text}
use crate_python.Http.Client.{Env, Config, Client}
use crate_python.Http.Request.Keeps.{IsKept, request-Keeps}
use crate_python.Http.Client.Valid.{
  IsValid, get_server-IsValid, drop_server-IsValid, add_server-IsValid,
}

IsValid-IsKept : (env : Env) (cfg : Config) → IsKept env cfg IsValid
IsValid-IsKept env cfg = record {
  at_get = record { at = get_server-IsValid env.time };
  at_drop = λ s m. record { at = drop_server-IsValid env.time s m };
  at_add = add_server-IsValid env cfg;
  at_send = λ sent c v. record { heap = v.heap; pooled = v.pooled; unique = v.unique };
}

-- However a request ends, whatever the servers answer and the redirects do, the pool of servers
-- stays valid: the heap of failed servers is in order, and each listed server has a connection pool
-- and is listed once.
pub request-IsValid :
    (env : Env) (cfg : Config) (fuel : ℕ) (r : Request) (server : Option Text) (c : Client)
    → IsValid c
    → IsValid (request env cfg fuel r server c).1
request-IsValid env cfg fuel r server =
    (request-Keeps env cfg IsValid (IsValid-IsKept env cfg) fuel r server).at
