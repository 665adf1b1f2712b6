-- ===== src/Tests/Threads.antt =====
-- Two threads drop the same server, one after the other.
use crate_python.Http.Client.Bags.{Moves, view, reported}
use crate_python.Http.Client.Bags.Steps.{Reach-Moves}
use crate_python.Prelude.Dict.{has_key}
use crate_python.Exec.{ok}
use crate_python.Http.Client.Counts.{occurrences}
use crate_python.Http.Client.Valid.{IsValid}
use crate_python.Http.Client.Threads.{Reach, Step, Reach-pool, Reach-served}
use crate_python.Http.Client.{Client, drop_server, get_server}
use crate_python.Prelude.{true, Text, str, ◌≡◌, arith, [], ◌∷◌}
use crate_python.Tests.Requests.{down_env, plain_config, one_server, one_server-IsValid}

abbrev dropped_once : Client
dropped_once = (drop_server down_env.time (str "http://a:4200") (str "m") one_server).1

abbrev dropped_twice : Client
dropped_twice = (drop_server down_env.time (str "http://a:4200") (str "m") dropped_once).1

abbrev two_threads : Reach down_env plain_config one_server dropped_twice
two_threads = Reach.next (Reach.next Reach.here (Step.drop _ _)) (Step.drop _ _)

Reach-pool_example :
    IsValid dropped_twice × ((s : Text) → occurrences s dropped_twice ≡ occurrences s one_server)
Reach-pool_example =
    Reach-pool down_env plain_config one_server dropped_twice two_threads one_server-IsValid

Reach-served_example :
    (s : Text) × ((get_server down_env.time dropped_twice).0 ≡ ok s)
    × ((e : Client)
        → Reach down_env plain_config (get_server down_env.time dropped_twice).1 e
        → has_key s e.server_pool ≡ true)
Reach-served_example =
    Reach-served down_env plain_config one_server dropped_twice two_threads one_server-IsValid
      (omega arith)

-- The server fails once, and the second thread finds it gone.
Reach-Moves_example :
    Moves
      (view one_server)
      (reported (str "http://a:4200") ∷ reported (str "http://a:4200") ∷ [])
      (view dropped_twice)
Reach-Moves_example = Reach-Moves down_env plain_config one_server dropped_twice two_threads
