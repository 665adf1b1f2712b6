-- ===== src/Http/Client/Valid.antt =====
-- The invariant of the client's pool of servers.
use crate_python.Prelude.{ℕ, zero, suc, ◌≤◌, ◌<◌, ◌≡◌, refl, ◌∙◌, true, Text, length, arith}
use crate_python.Prelude.Dict.{Dict, has_key, insert, lookup-insert}
use crate_python.Http.Value.{Value}
use crate_python.Http.Server.{make_server, remove_certs_for_non_https}
use crate_python.Http.Client.Heap.{IsHeap, heappush-IsHeap, get_server-IsHeap}
use crate_python.Http.Client.Counts.{occurrences, get_server-occurrences, drop_server-occurrences}
use crate_python.Http.Client.{
  Client, Config, Env, restore_step, restore, next_turn, get_server, drop_server, create_server,
  add_server,
}

-- The failed servers are ordered by the time of failure; each server that is listed, active or
-- not, has a connection pool, and is listed once.
pub record IsValid (c : Client) : Type 0 where
  pub heap : IsHeap c.inactive
  pub pooled : (s : Text) → 0 < occurrences s c → has_key s c.server_pool ≡ true
  pub unique : (s : Text) → occurrences s c ≤ 1

-- The rest of the state, of which the lists are no part.
restore_step-server_pool :
    (time : ℕ → ℕ) (c : Client) → (restore_step time c.inactive c).server_pool ≡ c.server_pool
unfolding restore_step
restore_step-server_pool time c = ground arith

pub restore-server_pool :
    (time : ℕ → ℕ) (n : ℕ) (c : Client) → (restore time n c).server_pool ≡ c.server_pool
unfolding restore
restore-server_pool time zero c = refl
restore-server_pool time (suc n) c = restore-server_pool time n _ ∙ restore_step-server_pool time c

next_turn-server_pool : (c : Client) → (next_turn c).1.server_pool ≡ c.server_pool
unfolding next_turn
next_turn-server_pool c = ground arith

pub get_server-server_pool :
    (time : ℕ → ℕ) (c : Client) → (get_server time c).1.server_pool ≡ c.server_pool
unfolding get_server
get_server-server_pool time c =
    next_turn-server_pool (restore time (length c.inactive) c)
    ∙ restore-server_pool time (length c.inactive) c

pub drop_server-server_pool :
    (time : ℕ → ℕ) (s m : Text) (c : Client)
    → (drop_server time s m c).1.server_pool ≡ c.server_pool
unfolding drop_server
drop_server-server_pool time s m c = ground arith

drop_server-IsHeap :
    (time : ℕ → ℕ) (s m : Text) (c : Client)
    → IsHeap c.inactive
    → IsHeap (drop_server time s m c).1.inactive
unfolding drop_server
drop_server-IsHeap time s m c h =
    ground
      (arith, heappush-IsHeap (record { ts = time c.reads; server = s; message = m }) c.inactive h)

-- A state with the same servers in the lists and the same pools is valid if its heap is in order.
IsValid-same :
    (c d : Client)
    → IsHeap d.inactive
    → ((s : Text) → occurrences s d ≡ occurrences s c)
    → d.server_pool ≡ c.server_pool
    → IsValid c
    → IsValid d
IsValid-same c d h o p v = record {
  heap = h;
  pooled = λ s n. rw p (v.pooled s (rw o at n));
  unique = λ s. rw o (v.unique s);
}

-- `_get_server` keeps the pool valid, whether it returns a server or raises.
pub get_server-IsValid : (time : ℕ → ℕ) (c : Client) → IsValid c → IsValid (get_server time c).1
get_server-IsValid time c v =
    IsValid-same c _ (get_server-IsHeap time c v.heap) (λ s. get_server-occurrences s time c)
      (get_server-server_pool time c) v

-- `_drop_server` keeps the pool valid, whether it returns or raises.
pub drop_server-IsValid :
    (time : ℕ → ℕ) (server message : Text) (c : Client)
    → IsValid c
    → IsValid (drop_server time server message c).1
drop_server-IsValid time server message c v =
    IsValid-same c _ (drop_server-IsHeap time server message c v.heap)
      (λ s. drop_server-occurrences s time server message c)
      (drop_server-server_pool time server message c) v

has_key-insert :
    {V : Type 0} (s k : Text) (v : V) (d : Dict V)
    → has_key s d ≡ true
    → has_key s (insert k v d) ≡ true
has_key-insert s k v d h = ground (arith, lookup-insert k s v d)

pub has_key-create_server :
    (env : Env) (server s : Text) (kw : Dict Value) (c : Client)
    → has_key s c.server_pool ≡ true
    → has_key s (create_server env server kw c).server_pool ≡ true
unfolding create_server
has_key-create_server env server s kw c h =
    has_key-insert s server (make_server env.platform server (remove_certs_for_non_https server kw))
      c.server_pool h

pub has_key-add_server :
    (env : Env) (cfg : Config) (server s : Text) (c : Client)
    → has_key s c.server_pool ≡ true
    → has_key s (add_server env cfg server c).server_pool ≡ true
unfolding add_server
has_key-add_server env cfg server s c h =
    ground (arith, has_key-create_server env server s cfg.pool_kw c h)

pub add_server-lists :
    (env : Env) (cfg : Config) (server : Text) (c : Client)
    → ((add_server env cfg server c).active ≡ c.active)
      × ((add_server env cfg server c).inactive ≡ c.inactive)
unfolding add_server create_server
add_server-lists env cfg server c = ground arith

-- `_add_server` keeps the pool valid: a redirect's server gets a connection pool and is not listed.
pub add_server-IsValid :
    (env : Env) (cfg : Config) (server : Text) (c : Client)
    → IsValid c
    → IsValid (add_server env cfg server c)
add_server-IsValid env cfg server c v =
    let (a, i) = add_server-lists env cfg server c in
    record {
      heap = rw i v.heap;
      pooled = λ s n. has_key-add_server env cfg server s c (v.pooled s (rw (a, i) at n));
      unique = λ s. rw (a, i) (v.unique s);
    }
