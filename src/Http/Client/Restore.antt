-- ===== src/Http/Client/Restore.antt =====
-- What one call of `_get_server` restores while the clock stands still: the failed servers whose
-- interval is over, oldest first, and no other.
use crate_python.Prelude.{
  ℕ, zero, suc, ◌+◌, ◌≡◌, refl, ◌∙◌, ap, sym, Bool, true, false, List, [], ◌∷◌, ◌++◌, Text, str,
  length, append-nil, append_assoc, ltb, arith, if◌then◌else◌, inl, inr, Bool-cases,
}
use crate_python.Exceptions.{builtin_error, index_error}
use crate_python.Exec.{Result, ok, err}
use crate_python.Http.Client.Turn.{next_turn_elim}
use crate_python.Http.Client.Heap.{IsHeap, IsHeap-tail, heappush_first, ts-le}
use crate_python.Http.Client.{
  Down, Client, retry_interval, restore_step, restore, next_turn, get_server,
}

-- The interval of the entry is not over.
abbrev pub is_waiting : ℕ → Down → Bool
is_waiting now d = ltb now (d.ts + retry_interval)

unfoldable pub due : ℕ → List Down → List Text
due now [] = []
due now (d ∷ heap) = let rest = due now heap in if is_waiting now d then rest else d.server ∷ rest

unfoldable pub waiting : ℕ → List Down → List Down
waiting now [] = []
waiting now (d ∷ heap) = let rest = waiting now heap in if is_waiting now d then d ∷ rest else rest

-- Behind an entry that waits, all wait.
waiting_all :
    (now : ℕ) (d : Down) (heap : List Down)
    → IsHeap (d ∷ heap)
    → is_waiting now d ≡ true
    → (due now (d ∷ heap) ≡ []) × (waiting now (d ∷ heap) ≡ d ∷ heap)
unfolding due waiting
waiting_all now d [] h w = ground arith
waiting_all now d (e ∷ heap) h w = ground (arith, ts-le d e h.0, waiting_all now e heap h.1)

due_first :
    (now : ℕ) (c : Client) (d : Down) (heap : List Down) {xs : List Text} {ys : List Down}
    → is_waiting now d ≡ false
    → (xs ≡ (c.active ++ d.server ∷ []) ++ due now heap) × (ys ≡ waiting now heap)
    → (xs ≡ c.active ++ due now (d ∷ heap)) × (ys ≡ waiting now (d ∷ heap))
unfolding due waiting
due_first now c d heap w (p, q) =
    (p ∙ append_assoc c.active (d.server ∷ []) (due now heap) ∙ rw w, q ∙ rw w)

module _ (time : ℕ → ℕ) (now : ℕ) (still : (k : ℕ) → time k ≡ now) where
  step_waiting :
      (c : Client) (d : Down) (heap : List Down)
      → c.inactive ≡ d ∷ heap
      → IsHeap (d ∷ heap)
      → is_waiting now d ≡ true
      → restore_step time (d ∷ heap) c ≡ record c { reads = suc c.reads }
  unfolding restore_step
  step_waiting c d heap e h w = ground (arith, still c.reads, heappush_first d heap h)

  step_due :
      (c : Client) (d : Down) (heap : List Down)
      → is_waiting now d ≡ false
      → restore_step time (d ∷ heap) c
        ≡ record c { active = c.active ++ d.server ∷ []; inactive = heap; reads = suc c.reads }
  unfolding restore_step
  step_due c d heap w = ground (arith, still c.reads)

  -- One round of the loop, when the outcome of its step is known.
  restore_round :
      (n : ℕ) (c c' : Client) (heap : List Down)
      → c.inactive ≡ heap
      → restore_step time heap c ≡ c'
      → restore time (suc n) c ≡ restore time n c'
  unfolding restore
  restore_round n c c' heap e s = ap (restore time n) (ap (λ i. restore_step time i c) e ∙ s)

  restore_waiting :
      (n : ℕ) (c : Client) (d : Down) (heap : List Down)
      → c.inactive ≡ d ∷ heap
      → IsHeap (d ∷ heap)
      → is_waiting now d ≡ true
      → ((restore time n c).active ≡ c.active) × ((restore time n c).inactive ≡ d ∷ heap)
  restore_waiting zero c d heap e h w = unfold restore in (refl, e)
  restore_waiting (suc n) c d heap e h w =
      let c' : Client = record c { reads = suc c.reads } in
      rw (restore_round n c c' (d ∷ heap) e (step_waiting c d heap e h w))
        (restore_waiting n c' d heap e h w)

  restore-due :
      (heap : List Down) (c : Client)
      → c.inactive ≡ heap
      → IsHeap heap
      → ((restore time (length heap) c).active ≡ c.active ++ due now heap)
        × ((restore time (length heap) c).inactive ≡ waiting now heap)
  restore-due [] c e h = unfold restore due waiting in (sym (append-nil c.active), e)
  restore-due (d ∷ heap) c e h = elim (Bool-cases (is_waiting now d)) [
    | inl w ↦
        let (none_due, all_wait) = waiting_all now d heap h w in
        rw (none_due, all_wait, append-nil) (restore_waiting (suc (length heap)) c d heap e h w)
    | inr w ↦
        let c' : Client = record c {
          active = c.active ++ d.server ∷ [];
          inactive = heap;
          reads = suc c.reads;
        } in
        let ih = restore-due heap c' refl (IsHeap-tail d heap h) in
        rw (restore_round (length heap) c c' (d ∷ heap) e (step_due c d heap w))
          (due_first now c d heap w ih)
  ]

-- What `_get_server` does with its lists while the clock shows `now`.
abbrev pub outcome : List Text → List Down → Result Text × List Text × List Down
outcome (x ∷ rest) i = (ok x, rest ++ x ∷ [], i)
outcome [] (d ∷ heap) = (ok d.server, d.server ∷ [], heap)
outcome [] [] = (err (builtin_error index_error (str "index out of range")), [], [])

abbrev pub seen : Result Text × Client → Result Text × List Text × List Down
seen (r, c) = (r, c.active, c.inactive)

next_turn-outcome : (c : Client) → seen (next_turn c) ≡ outcome c.active c.inactive
next_turn-outcome c =
    next_turn_elim (λ r. seen r ≡ outcome c.active c.inactive) c (λ x rest e. ground arith)
      (λ d heap e k. ground arith) (λ e k. ground arith)

-- While the clock shows `now`, `_get_server` moves the failed servers whose interval is over to the
-- end of the active list, oldest first, and leaves the others on the heap. It then returns the
-- first active server and moves it to the end; if there is none, it takes the oldest failed
-- server, waiting or not, and if there is none of these either it raises an `IndexError`.
pub get_server_lem :
    (time : ℕ → ℕ) (now : ℕ) (c : Client)
    → ((k : ℕ) → time k ≡ now)
    → IsHeap c.inactive
    → seen (get_server time c) ≡ outcome (c.active ++ due now c.inactive) (waiting now c.inactive)
unfolding get_server
get_server_lem time now c still h =
    let (p, q) = restore-due time now still c.inactive c refl h in
    next_turn-outcome (restore time (length c.inactive) c) ∙ rw (p, q)
