-- ===== src/Http/Request/Failover/Kept.antt =====
-- A server that is active stays so while others are taken or dropped.
use crate_python.Http.Request.Failover.{IsServing}
use crate_python.Exec.{ok}
use crate_python.Http.Client.Valid.{
  get_server-server_pool, drop_server-server_pool, get_server-IsValid, drop_server-IsValid,
}
use crate_python.Http.Server.{Server}
use crate_python.Http.Client.Turn.{next_turn_elim}
use crate_python.Prelude.{
  refl, zero, suc, true, false, [], contains, Text, List, ℕ, ◌≡◌, text_eq, ◌++◌, ◌<◌, ◌∷◌, length,
  ◌||◌, arith, text_eq_iff,
}
use crate_python.Http.Client.{
  Client, Down, get_server, restore, restore_step, next_turn, remove, Env, drop_server,
}
use crate_python.Http.Client.Counts.{count}

contains-append :
    (s : Text) (xs ys : List Text) → contains s (xs ++ ys) ≡ (contains s xs || contains s ys)
unfolding contains
contains-append s [] ys = refl
contains-append s (x ∷ xs) ys = ground (arith, contains-append s xs ys)

pub contains-count : (s : Text) (xs : List Text) → contains s xs ≡ true → 0 < count s xs
unfolding contains count
contains-count s [] h = cc
contains-count s (x ∷ xs) h = ground (arith, contains-count s xs, h)

contains-remove :
    (s t : Text) (xs : List Text)
    → text_eq t s ≡ false
    → contains s xs ≡ true
    → contains s (remove t xs) ≡ true
unfolding contains remove
contains-remove s t [] e h = h
contains-remove s t (x ∷ xs) e h =
    ground
      (arith, contains-remove s t xs e, text_eq_iff x t, text_eq_iff x s, text_eq_iff t s, h, e)

-- A server that is active stays so when another one is taken.
module _ (s : Text) (time : ℕ → ℕ) where
  contains-restore_step :
      (heap : List Down) (c : Client)
      → contains s c.active ≡ true
      → contains s (restore_step time heap c).active ≡ true
  unfolding restore_step
  contains-restore_step [] c h = h
  contains-restore_step (d ∷ heap) c h =
      ground (arith, contains-append s c.active (d.server ∷ []), h)

  contains-restore :
      (n : ℕ) (c : Client)
      → contains s c.active ≡ true
      → contains s (restore time n c).active ≡ true
  unfolding restore
  contains-restore zero c h = h
  contains-restore (suc n) c h =
      contains-restore n (restore_step time c.inactive c) (contains-restore_step c.inactive c h)

  contains-next_turn :
      (c : Client) → contains s c.active ≡ true → contains s (next_turn c).1.active ≡ true
  unfolding contains
  contains-next_turn c h =
      next_turn_elim (λ r. contains s r.1.active ≡ true) c
        (λ x rest e. ground (arith, contains-append s rest (x ∷ []), e, h))
        (λ d heap e k. ground (arith, e, h)) (λ e k. ground (arith, e, h))

  contains-get_server :
      (c : Client) → contains s c.active ≡ true → contains s (get_server time c).1.active ≡ true
  unfolding get_server
  contains-get_server c h =
      contains-next_turn (restore time (length c.inactive) c)
        (contains-restore (length c.inactive) c h)

module _ (time : ℕ → ℕ) (s next message : Text) (c : Client) where
  contains-drop_server :
      text_eq next s ≡ false
      → contains s c.active ≡ true
      → contains s (drop_server time next message c).1.active ≡ true
  unfolding drop_server
  contains-drop_server e h = ground (arith, contains-remove s next c.active e h, h)

  -- Dropping a server raises only when none is left.
  pub drop_server-returns :
      contains s (drop_server time next message c).1.active ≡ true
      → (drop_server time next message c).0 ≡ ok tt
  unfolding drop_server contains
  drop_server-returns h = ground (arith, h)

contains-size : (s : Text) (xs : List Text) → contains s xs ≡ true → 0 < length xs
unfolding contains
contains-size s [] h = cc
contains-size s (x ∷ xs) h = omega arith

module _ (env : Env) (good : Text) (server : Server) where
  pub size-IsServing : (c : Client) → IsServing good server c → 0 < length c.active
  size-IsServing c s = contains-size good c.active s.good_active

  pub get_server-IsServing :
      (c : Client) → IsServing good server c → IsServing good server (get_server env.time c).1
  get_server-IsServing c s = record {
    good_active = contains-get_server good env.time c s.good_active;
    pooled = rw (get_server-server_pool env.time c) s.pooled;
    valid = get_server-IsValid env.time c s.valid;
  }

  pub drop_server-IsServing :
      (next message : Text) (c : Client)
      → text_eq next good ≡ false
      → IsServing good server c
      → IsServing good server (drop_server env.time next message c).1
  drop_server-IsServing next message c other s = record {
    good_active = contains-drop_server env.time good next message c other s.good_active;
    pooled = rw (drop_server-server_pool env.time next message c) s.pooled;
    valid = drop_server-IsValid env.time next message c s.valid;
  }
