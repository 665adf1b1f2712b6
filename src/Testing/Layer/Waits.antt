-- ===== src/Testing/Layer/Waits.antt =====
-- How `stop` and the waiting loop end.
use crate_python.Exceptions.{Exn}
use crate_python.Exec.Ends.{
  EndsWith, Ends-bind, Ends-weaken, Ends-raise, Ends-try_except, Ends-if, Ends-pure,
}
use crate_python.Exec.{Exec, ◌>>=◌, modify, gets, pure, ◌>>◌, raise, try_except}
use crate_python.Prelude.{
  refl, zero, suc, true, false, ◌≡◌, ℕ, Bool, ◌<◌, ◌≤◌, ◌+◌, arith, ◌*◌, ltb, if◌then◌else◌, ◌-◌,
}
use crate_python.Testing.Layer.{
  Machine, Layer, stop, wait_loop, clock, wait_interval, sleep, not_in_time, wait_for,
}

-- The server runs, and its output is read.
pub record IsUp (s : Layer) : Type 0 where
  pub running : s.process ≡ true
  pub read : s.monitor ≡ true

-- There is no server, and no directory.
pub record IsDown (s : Layer) : Type 0 where
  pub ended : s.process ≡ false
  pub removed : s.data_dir ≡ false

-- The server is up, after so many readings of the clock and sleeps.
pub record At (k n : ℕ) (s : Layer) : Type 0 where
  pub reads : s.reads ≡ k
  pub sleeps : s.sleeps ≡ n
  pub up : IsUp s

-- What is known once so many requests were sent stays known.
abbrev pub Known : Type 1
Known = ℕ → Type 0

abbrev pub IsKept : Known → Type 0
IsKept P = (r : ℕ) → P r → P (suc r)

abbrev pub AtWith : Known → ℕ → ℕ → Layer → Type 0
AtWith P k n s = At k n s × P s.requests

-- The validator asks the server, and changes nothing else of the layer. Where it says yes, `V` is
-- known.
abbrev pub IsQuiet : Known → Known → Exec Layer Bool → Type 0
IsQuiet P V v =
    (k n : ℕ)
    → EndsWith ⊥ (AtWith P k n) v (λ b s. AtWith P k n s × (b ≡ true → V s.requests))
        (λ _. AtWith P k n)

module _ (m : Machine) (exits : m.exits ≡ true) where
  pub stop-IsDown : EndsWith ⊥ IsUp (stop m) (λ _. IsDown) (λ _ _. ⊥)
  unfolding stop ◌>>=◌ modify gets pure
  stop-IsDown = record {
    at = λ s h. rw (h.running, exits, h.read) (record { ended = refl; removed = refl });
  }

  stop-raise :
      {A : Type 0} (P : Known) (k n : ℕ) (Q : A → Layer → Type 0) (e : Exn)
      → EndsWith ⊥ (AtWith P k n) (do stop m; raise e) Q (λ _. IsDown)
  stop-raise P k n Q e =
      Ends-bind (λ _. IsDown) (stop m) _
        (Ends-weaken (stop m) stop-IsDown (λ s h. h.0.up) (λ _ s h. h) (λ _ s h. absurd h))
        (λ _. Ends-raise e (λ s h. h))

  -- What is left of the 30 seconds is covered by the fuel, a sleep for each unit.
  record IsReady (start f : ℕ) (s : Layer) : Type 0 where
    some_fuel : 0 < f
    enough :
        30000 + start + wait_interval
        < m.time s.reads + wait_interval * s.sleeps + wait_interval * f
    up : IsUp s

  module _ (monotonic : (k : ℕ) → m.time k ≤ m.time (suc k)) (P V : Known) (v : Exec Layer Bool)
      (quiet : IsQuiet P V v) (start : ℕ) where
    abbrev Ready : ℕ → Layer → Type 0
    Ready f s = IsReady start f s × P s.requests

    abbrev Found : Layer → Type 0
    Found s = IsUp s × V s.requests

    after_time : (f now : ℕ) → Exec Layer (Unit {0})
    after_time f now = do
      valid ← try_except v (λ e. do stop m; raise e)
      (let again = wait_loop m v start f in
          if valid
          then pure tt
          else if ltb 30000 (now - start)
          then (do stop m; raise (not_in_time m))
          else (do sleep m; again))

    sleep-IsReady :
        (f now k n : ℕ)
        → ltb 30000 (now - start) ≡ false
        → 30000 + start + wait_interval < now + wait_interval * suc f
        → now ≤ m.time k + wait_interval * n
        → EndsWith ⊥ (AtWith P k n) (sleep m) (λ _. Ready f) (λ _. IsDown)
    unfolding sleep modify
    sleep-IsReady f now k n early enough time = record {
      at = λ s (h, p). (
        record {
          some_fuel = ground (arith, early, enough);
          enough = rw (h.reads, h.sleeps) (ground (arith, enough, time));
          up = record { running = h.up.running; read = h.up.read };
        },
        p,
      );
    }

    after_time-Ends :
        (f now k n : ℕ)
        → 30000 + start + wait_interval < now + wait_interval * suc f
        → now ≤ m.time k + wait_interval * n
        → EndsWith ⊥ (Ready f) (wait_loop m v start f) (λ _. Found) (λ _. IsDown)
        → EndsWith ⊥ (AtWith P k n) (after_time f now) (λ _. Found) (λ _. IsDown)
    unfolding after_time
    after_time-Ends f now k n enough time again =
        Ends-bind (λ b s. AtWith P k n s × (b ≡ true → V s.requests)) _ _
          (Ends-try_except (λ _. AtWith P k n) v _ (quiet k n) (λ e. stop-raise P k n _ e))
          (λ valid.
            Ends-if valid _ _ (λ yes_. Ends-pure tt (λ s h. (h.0.0.up, h.1 yes_)))
              (λ _.
                Ends-if _ _ _
                  (λ _. Ends-weaken _ (stop-raise P k n _ _) (λ s h. h.0) (λ _ s h. h) (λ _ s h. h))
                  (λ early.
                    Ends-bind (λ _. Ready f) (sleep m) _
                      (Ends-weaken (sleep m) (sleep-IsReady f now k n early enough time)
                        (λ s h. h.0) (λ _ s h. h) (λ _ s h. h))
                      (λ _. again))))

    loop-Ends : (f : ℕ) → EndsWith ⊥ (Ready f) (wait_loop m v start f) (λ _. Found) (λ _. IsDown)
    unfolding wait_loop after_time clock ◌>>=◌
    loop-Ends zero = record { at = λ s h. absurd (ground (arith, h.0.some_fuel)) }
    loop-Ends (suc f) = record {
      at = λ s (h, p).
          (after_time-Ends f _ (suc s.reads) s.sleeps h.enough (ground (arith, monotonic s.reads))
              (loop-Ends f)).at
            (record s { reads = suc s.reads })
            (
              record {
                reads = refl;
                sleeps = refl;
                up = record { running = h.up.running; read = h.up.read };
              },
              p,
            );
    }

  forget_buffer :
      (V : Known)
      → EndsWith ⊥
          (λ s. IsUp s × V s.requests)
          (modify (λ s. record s { consumers = s.consumers - 1 }))
          (λ _ s. IsUp s × V s.requests)
          (λ _. IsDown)
  unfolding modify
  forget_buffer V = record { at = λ s (h, w). (record { running = h.running; read = h.read }, w) }

  -- With fuel for the 30 seconds, and a validator that only asks, `_wait_for` comes to an end: the
  -- server is up and the validator has said yes, or an exception came and both the server and its
  -- directory are gone. The server is one that exits when it is told to, and the clock is monotonic.
  pub wait_for-Ends :
      ((k : ℕ) → m.time k ≤ m.time (suc k))
      → (P V : Known) (v : Exec Layer Bool) → IsQuiet P V v
      → (fuel : ℕ) → 151 < fuel
      → EndsWith ⊥
          (λ s. IsUp s × P s.requests)
          (wait_for m v fuel)
          (λ _ s. IsUp s × V s.requests)
          (λ _. IsDown)
  unfolding wait_for clock ◌>>=◌ modify
  wait_for-Ends monotonic P V v quiet fuel enough = record {
    at = λ s (h, p).
        (Ends-bind (λ _ s. IsUp s × V s.requests) _ _ (loop-Ends monotonic P V v quiet _ fuel)
            (λ _. forget_buffer V)).at
          (record s { consumers = suc s.consumers; reads = suc s.reads })
          (
            record {
              some_fuel = ground (arith, enough);
              enough = ground (arith, enough, monotonic s.reads);
              up = record { running = h.running; read = h.read };
            },
            p,
          );
  }
