-- ===== src/Testing/Monitor/Heard.antt =====
-- What the buffers hold.
use crate_python.Prelude.{
  [], ◌∷◌, ◌++◌, ℕ, suc, zero, List, Text, ◌≡◌, ◌∙◌, ap, sym, if◌then◌else◌, ◌==◌, ◌+◌, ◌-◌, arith,
  inl, inr, append-nil, Bool-cases, append_assoc,
}
use crate_python.Testing.Monitor.{
  Event, Monitor, reads, registers, takes_away, happen, happen_all, strip, send_line, consume_line,
  remove_buffer,
}

-- How often a buffer is registered.
unfoldable pub registered : ℕ → List ℕ → ℕ
registered b [] = 0
registered b (c ∷ cs) = (if c == b then 1 else 0) + registered b cs

unfoldable pub copies : ℕ → Text → List Text
copies zero t = []
copies (suc n) t = t ∷ copies n t

-- The lines that a buffer hears that is registered `n` times at first: each line is heard as often
-- as the buffer is registered when the line is read.
unfoldable pub heard : ℕ → ℕ → List Event → List Text
heard b n [] = []
heard b n (reads line ∷ events) = copies n (strip line) ++ heard b n events
heard b n (registers c ∷ events) = heard b (n + (if c == b then 1 else 0)) events
heard b n (takes_away c ∷ events) = heard b (n - (if c == b then 1 else 0)) events

consume_line-lines :
    (b : ℕ) (line : Text) (cs : List ℕ) (lines : ℕ → List Text)
    → consume_line line cs lines b ≡ lines b ++ copies (registered b cs) (strip line)
unfolding consume_line registered copies send_line
consume_line-lines b line [] lines = sym (append-nil (lines b))
consume_line-lines b line (c ∷ cs) lines = elim (Bool-cases (c == b)) [
  | inl e ↦
      rw (e, consume_line-lines b line cs (send_line line c lines))
        (ground
          (arith, append_assoc (lines b) (strip line ∷ []) (copies (registered b cs) (strip line))))
  | inr e ↦ rw (e, consume_line-lines b line cs (send_line line c lines)) (ground arith)
]

registered-append :
    (b c : ℕ) (cs : List ℕ)
    → registered b (cs ++ c ∷ []) ≡ registered b cs + (if c == b then 1 else 0)
unfolding registered
registered-append b c [] = omega arith
registered-append b c (d ∷ cs) = omega (arith, registered-append b c cs)

registered-remove_buffer :
    (b c : ℕ) (cs : List ℕ)
    → registered b (remove_buffer c cs) ≡ registered b cs - (if c == b then 1 else 0)
unfolding registered remove_buffer
registered-remove_buffer b c [] = ground arith
registered-remove_buffer b c (d ∷ cs) = ground (arith, registered-remove_buffer b c cs)

-- However reading lines and registering and taking away buffers follow each other: a buffer holds
-- what it held before, and then the lines that were read while it was registered, stripped, in the
-- order in which they were read.
pub happen_all-lines :
    (b : ℕ) (events : List Event) (m : Monitor)
    → (happen_all events m).lines b ≡ m.lines b ++ heard b (registered b m.consumers) events
unfolding happen_all happen heard
happen_all-lines b [] m = sym (append-nil (m.lines b))
happen_all-lines b (reads line ∷ events) m =
    happen_all-lines b events (happen (reads line) m)
    ∙ (ap (λ l. l ++ heard b (registered b m.consumers) events)
          (consume_line-lines b line m.consumers m.lines)
        ∙ append_assoc (m.lines b) (copies (registered b m.consumers) (strip line)) _)
happen_all-lines b (registers c ∷ events) m =
    happen_all-lines b events (happen (registers c) m)
    ∙ ap (λ n. m.lines b ++ heard b n events) (registered-append b c m.consumers)
happen_all-lines b (takes_away c ∷ events) m =
    happen_all-lines b events (happen (takes_away c) m)
    ∙ ap (λ n. m.lines b ++ heard b n events) (registered-remove_buffer b c m.consumers)
