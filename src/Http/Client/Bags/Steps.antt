-- ===== src/Http/Client/Bags/Steps.antt =====
-- What each operation on the pool does to its servers, without their order.
use crate_python.Prelude.{
  refl, true, [], List, Text, ◌≡◌, ◌∷◌, contains, arith, inl, inr, ℕ, Bool-cases, ltb, ◌+◌, ap, ◌∙◌,
  zero, suc, sym, length, false,
}
use crate_python.Http.Client.{
  Client, Down, Env, Config, get_server, drop_server, restore, restore_step, next_turn, heappush,
  add_server, remove, retry_interval,
}
use crate_python.Http.Client.Turn.{next_turn_elim}
use crate_python.Http.Client.Threads.{Step, Reach}
use crate_python.Http.Client.Valid.{add_server-lists}
use crate_python.Http.Client.Bags.{
  view, bag, servers, Moves, Returns, Returns-trans, none_yet, comes_back, Happens, returns, fails,
  not_active, then_happens, unmoved, reported, events, Moves-same, returned, pushed, appended,
  removed, count-absent,
}

module _ (time : ℕ → ℕ) where
  restore_step-Returns :
      (heap : List Down) (c : Client)
      → c.inactive ≡ heap
      → Returns (view c) (view (restore_step time heap c))
  unfolding restore_step
  restore_step-Returns [] c e = none_yet
  restore_step-Returns (d ∷ heap) c e =
      elim (Bool-cases (ltb (time c.reads) (d.ts + retry_interval))) [
        | inl early ↦ rw early (
            returned
              (ap (λ f. (bag c.active, f)) (ap (λ h. bag (servers h)) e ∙ sym (pushed d heap))))
        | inr late ↦ rw late (
            comes_back none_yet d.server (bag c.active) (bag (servers heap))
              (ap (λ h. (bag c.active, bag (servers h))) e)
              (ap (λ a. (a, bag (servers heap))) (appended d.server c.active)))
      ]

  restore-Returns : (n : ℕ) (c : Client) → Returns (view c) (view (restore time n c))
  unfolding restore
  restore-Returns zero c = none_yet
  restore-Returns (suc n) c =
      Returns-trans (restore_step-Returns c.inactive c refl)
        (restore-Returns n (restore_step time c.inactive c))

  next_turn-Returns : (c : Client) → Returns (view c) (view (next_turn c).1)
  next_turn-Returns c =
      next_turn_elim (λ r. Returns (view c) (view r.1)) c
        (λ x rest e. returned (
          ap (λ a. (bag a, bag (servers c.inactive))) e
          ∙ ap (λ a. (a, bag (servers c.inactive))) (sym (appended x rest))))
        (λ d heap e k.
          comes_back none_yet d.server (bag []) (bag (servers heap))
            (λ i. (bag (e i), bag (servers (k i)))) refl)
        (λ e k. none_yet)

  get_server-Returns : (c : Client) → Returns (view c) (view (get_server time c).1)
  unfolding get_server
  get_server-Returns c =
      Returns-trans (restore-Returns (length c.inactive) c)
        (next_turn-Returns (restore time (length c.inactive) c))

  drop_server-active :
      (server message : Text) (c : Client)
      → contains server c.active ≡ true
      → (drop_server time server message c).1.active ≡ remove server c.active
  unfolding drop_server
  drop_server-active server message c h = ground arith

  drop_server-inactive :
      (server message : Text) (c : Client)
      → contains server c.active ≡ true
      → (drop_server time server message c).1.inactive
        ≡ heappush (record { ts = time c.reads; server = server; message = message }) c.inactive
  unfolding drop_server
  drop_server-inactive server message c h = ground arith

  drop_server-idle :
      (server message : Text) (c : Client)
      → contains server c.active ≡ false
      → view c ≡ view (drop_server time server message c).1
  unfolding drop_server
  drop_server-idle server message c h = ground arith

  drop_server-Happens :
      (server message : Text) (c : Client)
      → Happens (view c) (reported server) (view (drop_server time server message c).1)
  drop_server-Happens server message c = elim (Bool-cases (contains server c.active)) [
    | inl active ↦
        fails server (bag (remove server c.active)) (bag (servers c.inactive))
          (ap (λ a. (a, bag (servers c.inactive))) (removed server c.active active))
          (λ i. (
            bag (drop_server-active server message c active i),
            (ap (λ h. bag (servers h)) (drop_server-inactive server message c active)
                  ∙ pushed _ c.inactive)
                i,
          ))
    | inr idle ↦
        not_active server (count-absent server c.active idle)
          (drop_server-idle server message c idle)
  ]

add_server-view :
    (env : Env) (cfg : Config) (s : Text) (c : Client) → view c ≡ view (add_server env cfg s c)
add_server-view env cfg s c =
    let (a, i) = add_server-lists env cfg s c in sym (λ k. (bag (a k), bag (servers (i k))))

Reach-view :
    {env : Env} {cfg : Config} {c d : Client} (r : Reach env cfg c d)
    → Moves (view c) (events r) (view d)
Reach-view Reach.here = unmoved refl
Reach-view {env} {cfg} (Reach.next {d} r Step.take) =
    then_happens (Reach-view r) (returns (get_server-Returns env.time d))
Reach-view {env} {cfg} (Reach.next {d} r (Step.drop s m)) =
    then_happens (Reach-view r) (drop_server-Happens env.time s m d)
Reach-view {env} {cfg} (Reach.next {d} r (Step.add s)) =
    Moves-same (Reach-view r) (add_server-view env cfg s d)
Reach-view (Reach.next r (Step.send sent)) = Reach-view r

-- Whatever the threads of a client do, in whatever order, to one who looks at which servers are active
-- and which have failed, and not at their order: when a server is asked for, none fails, and servers
-- may come back; when an active server is reported as failing, it goes from the active to the failed
-- ones, and nothing else moves; a report of a server that is not active, a new connection pool and
-- sending move nothing.
pub Reach-Moves :
    (env : Env) (cfg : Config) (c d : Client) (r : Reach env cfg c d)
    → Moves (view c) (events r) (view d)
Reach-Moves env cfg c d r = Reach-view r
