-- ===== src/Testing/Layer/Log.antt =====
-- How `wait_for_http_url` ends.
use crate_python.Testing.Address.{prepend_http}
use crate_python.Exec.{Exec, case_option, ◌>>=◌, pure}
use crate_python.Exec.Ends.{Ends-pure, Ends-if, EndsWith, Ends-case_option}
use crate_python.Prelude.{
  ◌+◌, ◌*◌, ◌-◌, ◌<◌, Option, ltb, false, ℕ, suc, none, some, true, zero, refl, ◌≡◌, Text, arith,
  subst, if◌then◌else◌,
}
use crate_python.Testing.Layer.{
  Machine, Layer, Line, line_of, start, wait_for_http_url, clock, readline, wait_interval,
}

-- Each `readline` returns a line.
abbrev pub IsTalking : Machine → Type 0
IsTalking m = (k : ℕ) → (t : Text) × (m.log k ≡ Line.written t)

module _ (m : Machine) where
  -- While the log is read for the address
  pub record IsReading (k n : ℕ) (s : Layer) : Type 0 where
    pub reads : s.reads ≡ k
    pub sleeps : s.sleeps ≡ n
    pub running : s.process ≡ true

  after_line : ℕ → ℕ → Text → ℕ → Exec Layer (Option Text)
  after_line fuel start line now =
      case_option (m.address line)
        (let again = wait_for_http_url m fuel start in
          if ltb 30000 (now - start) then pure none else again)
        (λ a. pure (some (prepend_http a)))

  abbrev pub EndsReading : ℕ → ℕ → Exec Layer (Option Text) → Type 0
  EndsReading k n method = EndsWith ⊥ (IsReading k n) method (λ _ s. s.process ≡ true) (λ _ _. ⊥)

  after_line-EndsReading :
      (f k n began now : ℕ) (line : Text)
      → (ltb 30000 (now - began) ≡ false → EndsReading k n (wait_for_http_url m f began))
      → EndsReading k n (after_line f began line now)
  unfolding after_line
  after_line-EndsReading f k n began now line again =
      Ends-case_option (m.address line) _ _
        (λ _. Ends-if _ _ _ (λ _. Ends-pure none (λ s h. h.running)) again)
        (λ a _. Ends-pure _ (λ s h. h.running))

  one_line-EndsReading :
      (f k n began : ℕ)
      → IsTalking m
      → ((now : ℕ)
          → now ≡ m.time k + wait_interval * n
          → ltb 30000 (now - began) ≡ false
          → EndsReading (suc k) n (wait_for_http_url m f began))
      → EndsReading k n (wait_for_http_url m (suc f) began)
  unfolding wait_for_http_url after_line clock readline line_of ◌>>=◌ pure
  one_line-EndsReading f k n began talking again = record {
    at = λ s h.
        let (t, e) = talking s.lines in
        rw e (
          (after_line-EndsReading f (suc k) n began _ t (again _ (rw (h.reads, h.sleeps) refl))).at
            (record s { lines = suc s.lines; reads = suc s.reads })
            (record { reads = rw h.reads refl; sleeps = h.sleeps; running = h.running }));
  }

  later :
      (f k n began : ℕ)
      → 30000 + began < m.time (k + suc f) + wait_interval * n
      → 30000 + began < m.time (suc k + f) + wait_interval * n
  later f k n began late = subst (λ i. 30000 + began < m.time i + wait_interval * n) (eq f k) late
    where
      eq : (f k : ℕ) → k + suc f ≡ suc k + f
      eq f k = omega arith

  -- When each `readline` returns a line, and enough readings of the clock take 30 seconds, the reading
  -- of the log ends.
  pub wait_for_http_url-EndsReading :
      (f k n began : ℕ)
      → IsTalking m
      → 30000 + began < m.time (k + f) + wait_interval * n
      → EndsReading k n (wait_for_http_url m (suc f) began)
  wait_for_http_url-EndsReading zero k n began talking late =
      one_line-EndsReading zero k n began talking
        (λ now e early. absurd (ground (arith, e, late, early)))
  wait_for_http_url-EndsReading (suc f) k n began talking late =
      one_line-EndsReading (suc f) k n began talking (λ now e early.
        wait_for_http_url-EndsReading f (suc k) n began talking (later f k n began late))
