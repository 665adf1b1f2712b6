-- ===== src/Http/Client/Threads.antt =====
-- Several threads on one client. Each operation on the pool runs under the client's lock, so the
-- threads interleave at whole operations.
use crate_python.Http.Server.{HttpCall}
use crate_python.Exec.{ok}
use crate_python.Http.Client.Rounds.{size, get_server-size, drop_server-size, get_server_total}
use crate_python.Http.Client.Valid.{
  IsValid, get_server-IsValid, get_server-server_pool, drop_server-IsValid, drop_server-server_pool,
  add_server-IsValid, add_server-lists, has_key-add_server,
}
use crate_python.Prelude.Dict.{has_key}
use crate_python.Http.Client.Counts.{
  count, occurrences, get_server-occurrences, drop_server-occurrences, count-append,
}
use crate_python.Http.Client.{Env, Config, Client, get_server, drop_server, add_server}
use crate_python.Prelude.{refl, true, [], Text, List, ◌≡◌, ◌∙◌, ◌<◌, ◌++◌, ◌∷◌, arith, text_eq_iff}

-- What a thread does with the client in one go: `_get_server`, `_drop_server` and `_add_server`,
-- which hold the lock, and the record of what urllib3 is handed.
pub data Step (env : Env) (cfg : Config) (c : Client) : Client → Type 0 where
  take : Step env cfg c (get_server env.time c).1
  drop : (server message : Text) → Step env cfg c (drop_server env.time server message c).1
  add : (server : Text) → Step env cfg c (add_server env cfg server c)
  send : (sent : List (Text × HttpCall)) → Step env cfg c (record c { sent = sent })

-- The states after any operations of any threads, in any order.
pub data Reach (env : Env) (cfg : Config) (c : Client) : Client → Type 0 where
  here : Reach env cfg c c
  next : {d e : Client} → Reach env cfg c d → Step env cfg d e → Reach env cfg c e

module _ {env : Env} {cfg : Config} where
  Step-IsValid : {c d : Client} → Step env cfg c d → IsValid c → IsValid d
  Step-IsValid {c} take v = get_server-IsValid env.time c v
  Step-IsValid {c} (drop s m) v = drop_server-IsValid env.time s m c v
  Step-IsValid {c} (add s) v = add_server-IsValid env cfg s c v
  Step-IsValid (send sent) v = record { heap = v.heap; pooled = v.pooled; unique = v.unique }

  Step-occurrences :
      {c d : Client} → Step env cfg c d → (s : Text) → occurrences s d ≡ occurrences s c
  Step-occurrences {c} take s = get_server-occurrences s env.time c
  Step-occurrences {c} (drop t m) s = drop_server-occurrences s env.time t m c
  Step-occurrences {c} (add t) s = let (a, i) = add_server-lists env cfg t c in rw (a, i) refl
  Step-occurrences (send sent) s = refl

  Step-size : {c d : Client} → Step env cfg c d → size d ≡ size c
  Step-size {c} take = get_server-size env.time c
  Step-size {c} (drop t m) = drop_server-size env.time t m c
  Step-size {c} (add t) = let (a, i) = add_server-lists env cfg t c in rw (a, i) refl
  Step-size (send sent) = refl

  Step-has_key :
      {c d : Client}
      → Step env cfg c d
      → (s : Text) → has_key s c.server_pool ≡ true
      → has_key s d.server_pool ≡ true
  Step-has_key {c} take s h = rw (get_server-server_pool env.time c) h
  Step-has_key {c} (drop t m) s h = rw (drop_server-server_pool env.time t m c) h
  Step-has_key {c} (add t) s h = has_key-add_server env cfg t s c h
  Step-has_key (send sent) s h = h

  Reach-IsValid : {c d : Client} → Reach env cfg c d → IsValid c → IsValid d
  Reach-IsValid here v = v
  Reach-IsValid (next r st) v = Step-IsValid st (Reach-IsValid r v)

  Reach-size : {c d : Client} → Reach env cfg c d → size d ≡ size c
  Reach-size here = refl
  Reach-size (next r st) = Step-size st ∙ Reach-size r

  Reach-has_key :
      {c d : Client}
      → Reach env cfg c d
      → (s : Text) → has_key s c.server_pool ≡ true
      → has_key s d.server_pool ≡ true
  Reach-has_key here s h = h
  Reach-has_key (next r st) s h = Step-has_key st s (Reach-has_key r s h)

  Reach-occurrences :
      {c d : Client} → Reach env cfg c d → (s : Text) → occurrences s d ≡ occurrences s c
  Reach-occurrences here s = refl
  Reach-occurrences (next r st) s = Step-occurrences st s ∙ Reach-occurrences r s

-- Whatever the threads of a client with a valid pool do, in whatever order, the pool stays valid,
-- and each server stands in its two lists together as often as at the start.
pub Reach-pool :
    (env : Env) (cfg : Config) (c d : Client)
    → Reach env cfg c d
    → IsValid c
    → IsValid d × ((s : Text) → occurrences s d ≡ occurrences s c)
Reach-pool env cfg c d r v = (Reach-IsValid r v, Reach-occurrences r)

-- `_get_server` gave the last server of the list.
occurrences-last :
    (s : Text) (rest : List Text) (c : Client) → c.active ≡ rest ++ s ∷ [] → 0 < occurrences s c
unfolding count
occurrences-last s rest c e = rw e (ground (arith, count-append s rest (s ∷ []), text_eq_iff s s))

-- A thread of a client with a valid pool and a server is always given a server, whatever the other
-- threads did before; and it finds the server's connection pool, whatever they do in between.
pub Reach-served :
    (env : Env) (cfg : Config) (c d : Client)
    → Reach env cfg c d
    → IsValid c
    → 0 < size c
    → (s : Text) × ((get_server env.time d).0 ≡ ok s)
      × ((e : Client) → Reach env cfg (get_server env.time d).1 e → has_key s e.server_pool ≡ true)
Reach-served env cfg c d r v h =
    let (s, rest, given, last) = get_server_total env.time d (omega (arith, Reach-size r)) in
    let after = get_server-IsValid env.time d (Reach-IsValid r v) in
    (
      s,
      given,
      λ e later.
          Reach-has_key later s
            (after.pooled s (occurrences-last s rest (get_server env.time d).1 last)),
    )
