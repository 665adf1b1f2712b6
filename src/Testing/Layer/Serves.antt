-- ===== src/Testing/Layer/Serves.antt =====
-- A server that answers in time is found.
use native.Mathlib.Numerals.{unary_clauses}
use crate_python.Exec.{try_except, ◌>>=◌, pure, raise, ok, modify}
use crate_python.Exceptions.{Exn}
use crate_python.Prelude.{
  refl, suc, false, inl, inr, ◌⊎◌, ℕ, Bool, ◌≡◌, ◌==◌, zero, ◌+◌, ◌<◌, ◌≤◌, ◌*◌, arith, true,
  Bool-cases, ltb, ◌-◌, subst,
}
use crate_python.Testing.Layer.{
  Machine, Layer, is_started, wait_loop, wait_for, clock, sleep, ask, told, wait_interval,
}

shift : (n j : ℕ) → n + suc j ≡ suc n + j
shift n j = omega arith

move : (P : ℕ → Type 0) (n j : ℕ) → P (n + suc j) → P (suc n + j)
move P n j = subst P (shift n j)

module _ (m : Machine) where
  -- What `resp.status == 200` says of an answer, and `except` of an exception.
  seen : Exn ⊎ ℕ → Bool
  seen (inl e) = false
  seen (inr status) = status == 200

  told-seen :
      (r : Exn ⊎ ℕ) (s : Layer)
      → try_except (told m r >>= λ status. pure (status == 200)) (λ e. pure false) s
        ≡ (ok (seen r), s)
  unfolding told try_except ◌>>=◌ pure raise seen
  told-seen (inl e) s = refl
  told-seen (inr status) s = refl

  is_started-seen :
      (s : Layer)
      → is_started m s ≡ (ok (seen (m.head s.requests)), record s { requests = suc s.requests })
  unfolding is_started ask try_except ◌>>=◌
  is_started-seen s = told-seen (m.head s.requests) (record s { requests = suc s.requests })

  now_at : Layer → ℕ
  now_at s = m.time s.reads + wait_interval * s.sleeps

  loop-found :
      (fuel start : ℕ) (s : Layer)
      → seen (m.head s.requests) ≡ true
      → wait_loop m (is_started m) start (suc fuel) s
        ≡ (ok tt, record s { reads = suc s.reads; requests = suc s.requests })
  unfolding wait_loop clock try_except ◌>>=◌ pure
  loop-found fuel start s yes_ = rw (is_started-seen (record s { reads = suc s.reads }), yes_) refl

  after_round : Layer → Layer
  after_round s = record s { reads = suc s.reads; requests = suc s.requests; sleeps = suc s.sleeps }

  loop-again :
      (fuel start : ℕ) (s : Layer)
      → seen (m.head s.requests) ≡ false
      → ltb 30000 (now_at s - start) ≡ false
      → wait_loop m (is_started m) start (suc fuel) s
        ≡ wait_loop m (is_started m) start fuel (after_round s)
  unfolding wait_loop clock try_except ◌>>=◌ sleep modify pure now_at after_round
  loop-again fuel start s unseen early =
      rw (is_started-seen (record s { reads = suc s.reads }), unseen, early) refl

  loop-serves :
      (j fuel start : ℕ) (s : Layer)
      → m.head (s.requests + j) ≡ inr 200
      → ((i : ℕ) → i < j → m.time (s.reads + i) + wait_interval * (s.sleeps + i) ≤ 30000 + start)
      → j < fuel
      → (s' : Layer) × (wait_loop m (is_started m) start fuel s ≡ (ok tt, s'))
  unfolding seen now_at after_round
  loop-serves j zero start s answer in_time enough = absurd (ground (arith, enough))
  loop-serves zero (suc fuel) start s answer in_time enough =
      let here : m.head s.requests ≡ inr 200 = simp unary_clauses at answer in
      (_, loop-found fuel start s (rw here refl))
  loop-serves (suc j) (suc fuel) start s answer in_time enough =
      elim (Bool-cases (seen (m.head s.requests))) [
        | inl found ↦ (_, loop-found fuel start s found)
        | inr unseen ↦
            rw (loop-again fuel start s unseen (ground (arith, simp unary_clauses at (in_time 0))))
              (loop-serves j fuel start (after_round s)
                (move (λ n. m.head n ≡ inr 200) s.requests j answer)
                (λ i i<j.
                  move (λ r. m.time r + wait_interval * (suc s.sleeps + i) ≤ 30000 + start) s.reads
                    i
                    (move (λ r. m.time (s.reads + suc i) + wait_interval * r ≤ 30000 + start)
                      s.sleeps i (in_time (suc i) (ground (arith, i<j)))))
                (ground (arith, enough)))
      ]

  -- A wait for the start of the server returns if the server answers a request with status 200, each
  -- round before it begins within 30 seconds, and there is fuel for these rounds.
  pub wait_for-serves :
      (j fuel : ℕ) (s : Layer)
      → m.head (s.requests + j) ≡ inr 200
      → ((i : ℕ)
          → i < j
          → m.time (suc s.reads + i) + wait_interval * (s.sleeps + i)
            ≤ 30000 + (m.time s.reads + wait_interval * s.sleeps))
      → j < fuel
      → (s' : Layer) × (wait_for m (is_started m) fuel s ≡ (ok tt, s'))
  unfolding wait_for clock ◌>>=◌ modify
  wait_for-serves j fuel s answer in_time enough =
      let found =
        loop-serves j fuel (m.time s.reads + wait_interval * s.sleeps)
          (record s { consumers = suc s.consumers; reads = suc s.reads }) answer in_time enough in
      (record found.0 { consumers = found.0.consumers - 1 }, rw found.1 refl)
