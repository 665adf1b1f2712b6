-- ===== src/Http/Request/Measure.antt =====
-- The number of servers that a request can still try: the active ones, and those that can come back.
use crate_python.Exceptions.{Exn}
use crate_python.Http.Request.{redirect_target, preserve_server}
use crate_python.Http.Value.{Response, answered, raised}
use crate_python.Http.Client.Rounds.{size, length-remove, get_server-size}
use crate_python.Http.Client.Turn.{next_turn_elim}
use crate_python.Http.Server.{HttpCall, Server}
use crate_python.Prelude.{
  ℕ, ◌≤◌, List, ◌<◌, Text, ◌+◌, length, ◌≡◌, ◌++◌, ◌∷◌, arith, true, if◌then◌else◌, suc, [], ltb,
  length-append, ◌∙◌, text_eq_refl, ap, none, refl, zero, false, contains,
}
use crate_python.Http.Client.{
  Env, Client, heappush, drop_server, Down, retry_interval, restore_step, restore, next_turn,
  get_server,
}

-- What the bound needs. The readings of the clock lie within one retry interval, so that no server
-- that fails in the course of the request comes back; no server redirects; and no connection is
-- reset or broken, after which a server would stay active.
pub record IsSteady (env : Env) (t₀ : ℕ) : Type 0 where
  pub since : (k : ℕ) → t₀ ≤ env.time k
  pub until : (k : ℕ) → env.time k < t₀ + retry_interval
  pub no_redirect :
      (sent : List (Text × HttpCall)) (server : Server) (call : HttpCall) (resp : Response)
      → env.urlopen sent server call ≡ answered resp
      → redirect_target resp ≡ none
  pub no_reset :
      (sent : List (Text × HttpCall)) (server : Server) (call : HttpCall) (ex : Exn)
      → env.urlopen sent server call ≡ raised ex
      → preserve_server ex ≡ false

module _ (t₀ : ℕ) where
  -- The failed servers that can come back before `t₀` and an interval.
  pub old : List Down → ℕ
  old [] = 0
  old (d ∷ heap) = (if ltb d.ts t₀ then 1 else 0) + old heap

  abbrev pub usable : Client → ℕ
  usable c = length c.active + old c.inactive

  pub old-le : (heap : List Down) → old heap ≤ length heap
  unfolding old
  old-le [] = omega arith
  old-le (d ∷ heap) = ground (arith, old-le heap)

  old-heappush : (d : Down) (heap : List Down) → old (heappush d heap) ≡ old (d ∷ heap)
  unfolding old heappush
  old-heappush d [] = refl
  old-heappush d (e ∷ heap) = ground (arith, old-heappush d heap)

  module _ (time : ℕ → ℕ) (until : (k : ℕ) → time k < t₀ + retry_interval) where
    restore_step-usable :
        (heap : List Down) (c : Client)
        → old heap ≡ old c.inactive
        → usable (restore_step time heap c) ≡ usable c
    unfolding restore_step old
    restore_step-usable [] c e = refl
    restore_step-usable (d ∷ heap) c e =
        ground (arith, until c.reads, old-heappush d heap, length-append c.active (d.server ∷ []))

    restore_step-active :
        (heap : List Down) (c : Client) → length c.active ≤ length (restore_step time heap c).active
    unfolding restore_step
    restore_step-active [] c = omega arith
    restore_step-active (d ∷ heap) c = ground (arith, length-append c.active (d.server ∷ []))

    restore-usable : (n : ℕ) (c : Client) → usable (restore time n c) ≡ usable c
    unfolding restore
    restore-usable zero c = refl
    restore-usable (suc n) c = restore-usable n _ ∙ restore_step-usable c.inactive c refl

    restore-active : (n : ℕ) (c : Client) → length c.active ≤ length (restore time n c).active
    unfolding restore
    restore-active zero c = omega arith
    restore-active (suc n) c =
        omega (
          arith,
          restore-active n (restore_step time c.inactive c),
          restore_step-active c.inactive c,
        )

    next_turn-usable : (c : Client) → 0 < length c.active → usable (next_turn c).1 ≡ usable c
    next_turn-usable c h =
        next_turn_elim (λ r. usable r.1 ≡ usable c) c
          (λ x rest e. omega (arith, ap length e, length-append rest (x ∷ [])))
          (λ d heap e k. absurd (omega (arith, ap length e))) (λ e k. refl)

    pub get_server-usable :
        (c : Client) → 0 < length c.active → usable (get_server time c).1 ≡ usable c
    unfolding get_server
    get_server-usable c h =
        next_turn-usable (restore time (length c.inactive) c)
          (omega (arith, restore-active (length c.inactive) c))
        ∙ restore-usable (length c.inactive) c

    -- Of a client with no active server all that is known is how many servers there are.
    pub usable-le-size : (c : Client) → usable (get_server time c).1 ≤ size c
    usable-le-size c = omega (arith, old-le (get_server time c).1.inactive, get_server-size time c)

  pub drop_server-usable :
      (time : ℕ → ℕ) (since : (k : ℕ) → t₀ ≤ time k) (s m : Text) (c : Client)
      → contains s c.active ≡ true
      → suc (usable (drop_server time s m c).1) ≡ usable c
  unfolding drop_server old
  drop_server-usable time since s m c h = ground (
    arith,
    since c.reads,
    length-remove s c.active,
    old-heappush (record { ts = time c.reads; server = s; message = m }) c.inactive,
  )

pub contains-last : (s : Text) (xs : List Text) → contains s (xs ++ s ∷ []) ≡ true
unfolding contains
contains-last s [] = ground (arith, text_eq_refl s)
contains-last s (x ∷ xs) = ground (arith, contains-last s xs)
