-- ===== src/Http/Client/Heap.antt =====
-- The heap of failed servers stays in order.
use crate_python.Prelude.{
  length, ℕ, zero, suc, ◌≤◌, ◌≡◌, refl, true, false, List, [], ◌∷◌, text_lt_asymm, text_eq_iff,
  arith,
}
use crate_python.Http.Client.{
  Client, Down, down_lt, heappush, restore_step, restore, next_turn, get_server,
}

-- No entry comes before its neighbour on the left.
abbrev pub IsHeap : List Down → Type 0
IsHeap [] = Unit
IsHeap (a ∷ []) = Unit
IsHeap (a ∷ b ∷ heap) = (down_lt b a ≡ false) × IsHeap (b ∷ heap)

pub IsHeap-tail : (d : Down) (heap : List Down) → IsHeap (d ∷ heap) → IsHeap heap
IsHeap-tail d [] h = tt
IsHeap-tail d (e ∷ heap) h = h.1

down_lt_asymm : (a b : Down) → down_lt a b ≡ true → down_lt b a ≡ false
unfolding down_lt
down_lt_asymm a b h = ground (
  arith,
  text_lt_asymm a.server b.server,
  text_lt_asymm a.message b.message,
  text_eq_iff a.server b.server,
  text_eq_iff b.server a.server,
)

-- An entry that comes first goes back to the front.
pub heappush_first : (d : Down) (heap : List Down) → IsHeap (d ∷ heap) → heappush d heap ≡ d ∷ heap
unfolding heappush
heappush_first d [] h = refl
heappush_first d (e ∷ heap) h = ground arith

push-IsHeap :
    (d e : Down) (heap : List Down)
    → down_lt e d ≡ true
    → IsHeap (e ∷ heap)
    → IsHeap (heappush d heap)
    → IsHeap (e ∷ heappush d heap)
unfolding heappush
push-IsHeap d e [] lt h k = (down_lt_asymm e d lt, tt)
push-IsHeap d e (x ∷ heap) lt h k = ground (arith, down_lt_asymm e d lt)

pub heappush-IsHeap : (d : Down) (heap : List Down) → IsHeap heap → IsHeap (heappush d heap)
unfolding heappush
heappush-IsHeap d [] h = tt
heappush-IsHeap d (e ∷ heap) h = ground (
  arith,
  heappush-IsHeap d heap (IsHeap-tail e heap h),
  λ (lt : down_lt e d ≡ true) (k : IsHeap (heappush d heap)). push-IsHeap d e heap lt h k,
)

-- The time of failure grows along the heap.
pub ts-le : (a b : Down) → down_lt b a ≡ false → a.ts ≤ b.ts
unfolding down_lt
ts-le a b h = ground arith

restore_step-IsHeap :
    (time : ℕ → ℕ) (heap : List Down) (c : Client)
    → IsHeap heap
    → IsHeap c.inactive
    → IsHeap (restore_step time heap c).inactive
unfolding restore_step
restore_step-IsHeap time [] c h k = k
restore_step-IsHeap time (d ∷ heap) c h k =
    ground (arith, heappush-IsHeap d heap (IsHeap-tail d heap h), IsHeap-tail d heap h)

pub restore-IsHeap :
    (time : ℕ → ℕ) (n : ℕ) (c : Client) → IsHeap c.inactive → IsHeap (restore time n c).inactive
unfolding restore
restore-IsHeap time zero c h = h
restore-IsHeap time (suc n) c h =
    restore-IsHeap time n _ (restore_step-IsHeap time c.inactive c h h)

next_turn-IsHeap : (c : Client) → IsHeap c.inactive → IsHeap (next_turn c).1.inactive
unfolding next_turn
next_turn-IsHeap c h = ground (arith, λ (d : Down) (heap : List Down). IsHeap-tail d heap)

pub get_server-IsHeap :
    (time : ℕ → ℕ) (c : Client) → IsHeap c.inactive → IsHeap (get_server time c).1.inactive
unfolding get_server
get_server-IsHeap time c h = next_turn-IsHeap _ (restore-IsHeap time (length c.inactive) c h)
