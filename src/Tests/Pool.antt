-- ===== src/Tests/Pool.antt =====
-- The pool of servers.
use crate_python.Exec.{ok}
use crate_python.Http.Client.Heap.{IsHeap}
use crate_python.Http.Client.Rounds.{get_servers, get_servers_round}
use crate_python.Http.Client.Restore.{seen, outcome, due, waiting, get_server_lem}
use crate_python.Http.Client.{Client, down_lt, get_server, Down, restore, restore_step, heappush}
use crate_python.Prelude.{refl, [], List, ℕ, str, ◌≡◌, ◌∷◌, map, ◌++◌}

abbrev two_servers : Client
two_servers = record {
  active = str "a" ∷ str "b" ∷ [];
  inactive = [];
  server_pool = [];
  reads = 0;
  sent = [];
}

-- One server failed long ago, one just now.
abbrev failed : List Down
failed =
    record { ts = 5; server = str "c"; message = [] }
    ∷ record { ts = 90000000; server = str "d"; message = [] }
    ∷ []

abbrev with_failed : Client
with_failed = record two_servers { inactive = failed }

failed-IsHeap : IsHeap failed
unfolding down_lt
failed-IsHeap = (refl, tt)

abbrev at_100_seconds : ℕ → ℕ
at_100_seconds k = 100000000

get_server_test : seen (get_server at_100_seconds with_failed) ≡ (
  ok (str "a"),
  str "b" ∷ str "c" ∷ str "a" ∷ [],
  record { ts = 90000000; server = str "d"; message = [] } ∷ [],
)
unfolding get_server restore restore_step heappush down_lt
get_server_test = refl

get_server_lem_example :
    seen (get_server at_100_seconds with_failed)
    ≡ outcome (with_failed.active ++ due 100000000 failed) (waiting 100000000 failed)
get_server_lem_example =
    get_server_lem at_100_seconds 100000000 with_failed (λ k. refl) failed-IsHeap

get_servers_round_example :
    get_servers at_100_seconds 2 two_servers ≡ (map ok two_servers.active, two_servers)
get_servers_round_example = get_servers_round at_100_seconds two_servers refl
