-- ===== src/Http/Client.antt =====
-- client/http.py, the state of `Client`: its pool of servers. `_active_servers` is the list that
-- requests go round; `_inactive_servers` is a heap of the servers that failed, with the time and
-- the message of the failure.
pub mod Turn
pub mod Heap
pub mod Counts
pub mod Restore
pub mod Rounds
pub mod Valid
pub mod Threads
pub mod Bags
use crate_python.Prelude.{
  ℕ, zero, suc, ◌+◌, ◌*◌, Bool, false, ◌&&◌, ◌||◌, Option, List, [], ◌∷◌, ◌++◌, Text, str, text_eq,
  text_lt, length, ltb, ◌==◌, if◌then◌else◌, contains,
}
use crate_python.Prelude.Dict.{Dict, insert, has_key}
use crate_python.Exceptions.{builtin_error, index_error, connection_error_of}
use crate_python.Exec.{Exec, pure, raise, ◌>>◌, ◌>>=◌}
use crate_python.Http.Value.{Value, Reply}
use crate_python.Http.Server.{Platform, Server, HttpCall, make_server, remove_certs_for_non_https}

-- An entry of the heap. Times count microseconds.
pub record Down : Type 0 where
  pub ts : ℕ
  pub server : Text
  pub message : Text

-- Python's `<` on the tuples `(ts, server, message)`.
unfoldable pub down_lt : Down → Down → Bool
down_lt a b =
    ltb a.ts b.ts
    || (a.ts == b.ts
        && (text_lt a.server b.server
            || (text_eq a.server b.server && text_lt a.message b.message)))

-- `heapq`: the heap is kept as the list of its entries in the order in which they leave it.
unfoldable pub heappush : Down → List Down → List Down
heappush d [] = d ∷ []
heappush d (e ∷ heap) = if down_lt e d then e ∷ heappush d heap else d ∷ e ∷ heap

-- `retry_interval`: 30 seconds
abbrev pub retry_interval : ℕ
retry_interval = 30 * 1000000

-- The attributes that change. `reads` counts the readings of the clock so far, and `sent` holds
-- what urllib3 has been handed, the newest last.
pub record Client : Type 0 where
  pub active : List Text
  pub inactive : List Down
  pub server_pool : Dict Server
  pub reads : ℕ
  pub sent : List (Text × HttpCall)

-- The attributes that `__init__` sets for good.
pub record Config : Type 0 where
  pub username : Option Text
  pub password : Option Text
  pub schema : Option Text
  pub backoff_factor : ℕ
  pub path : Text
  pub pool_kw : Dict Value

-- What the client meets: the clock, by its n-th reading; urllib3, which answers by what it was
-- handed before, the server and the call; and the platform's sockets.
pub record Env : Type 0 where
  pub time : ℕ → ℕ
  pub urlopen : List (Text × HttpCall) → Server → HttpCall → Reply
  pub platform : Platform

-- `_create_server`, of a URL with a host. Of another one, which a redirect can name, urllib3's
-- `connection_from_url` raises LocationValueError.
unfoldable pub create_server : Env → Text → Dict Value → Client → Client
create_server env server pool_kw c = record c {
  server_pool =
      insert server (make_server env.platform server (remove_certs_for_non_https server pool_kw))
        c.server_pool;
}

-- `_update_server_pool`
unfoldable pub update_server_pool : Env → List Text → Dict Value → Client → Client
update_server_pool env [] pool_kw c = c
update_server_pool env (s ∷ rest) pool_kw c =
    update_server_pool env rest pool_kw (create_server env s pool_kw c)

-- `_add_server`
unfoldable pub add_server : Env → Config → Text → Client → Client
add_server env cfg server c =
    if has_key server c.server_pool then c else create_server env server cfg.pool_kw c

-- One round of the loop of `_get_server`, with the heap as it stands. An empty heap raises
-- `IndexError`, which the loop passes over.
unfoldable pub restore_step : (ℕ → ℕ) → List Down → Client → Client
restore_step time [] c = c
restore_step time (d ∷ heap) c =
    if ltb (time c.reads) (d.ts + retry_interval)
    then record c { inactive = heappush d heap; reads = suc c.reads }
    else record c { active = c.active ++ d.server ∷ []; inactive = heap; reads = suc c.reads }

-- The loop, `n` rounds of it.
unfoldable pub restore : (ℕ → ℕ) → ℕ → Client → Client
restore time zero c = c
restore time (suc n) c = restore time n (restore_step time c.inactive c)

-- "if none is old enough, use oldest"
abbrev use_oldest : List Text → List Down → Exec Client (Unit {0})
use_oldest (s ∷ rest) heap c = pure tt c
use_oldest [] [] c = raise (builtin_error index_error (str "index out of range")) c
use_oldest [] (d ∷ heap) c = pure tt (record c { active = d.server ∷ []; inactive = heap })

-- `server = self._active_servers[0]; self._roundrobin()`
abbrev take_next : List Text → Exec Client Text
take_next [] c = raise (builtin_error index_error (str "list index out of range")) c
take_next (s ∷ rest) c = pure s (record c { active = rest ++ s ∷ [] })

-- The second half of `_get_server`, after the loop.
pub next_turn : Exec Client Text
unfolding ◌>>=◌
next_turn = do (λ c. use_oldest c.active c.inactive c); (λ c. take_next c.active c)

unfoldable pub get_server : (ℕ → ℕ) → Exec Client Text
unfolding next_turn
get_server time c = next_turn (restore time (length c.inactive) c)

-- `list.remove`
unfoldable pub remove : Text → List Text → List Text
remove s [] = []
remove s (x ∷ xs) = if text_eq x s then xs else x ∷ remove s xs

abbrev take_down : (ℕ → ℕ) → Text → Text → Client → Client
take_down time server message c =
    if contains server c.active
    then record c {
      active = remove server c.active;
      inactive =
          heappush (record { ts = time c.reads; server = server; message = message }) c.inactive;
      reads = suc c.reads;
    }
    else c

abbrev fail_if_none : List Text → Text → Exec Client (Unit {0})
fail_if_none (s ∷ rest) message c = pure tt c
fail_if_none [] message c =
    raise
      (connection_error_of
        (str "No more Servers available, exception from last server: " ++ message))
      c

-- `_drop_server`
unfoldable pub drop_server : (ℕ → ℕ) → Text → Text → Exec Client (Unit {0})
unfolding pure raise
drop_server time server message c =
    let c' = take_down time server message c in fail_if_none c'.active message c'

-- The property `active_servers`
abbrev pub active_servers : Client → List Text
active_servers c = c.active

-- `close`: each server's `Server.close` closes its connection pool, by urllib3.
unfoldable pub close_pools : {U : Type 0} → (Server → U → U) → Dict Server → U → U
close_pools close_pool [] u = u
close_pools close_pool ((name, server) ∷ pools) u =
    close_pools close_pool pools (close_pool server u)
