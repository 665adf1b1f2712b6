-- ===== src/Http/Client/Bags.antt =====
-- The pool of servers as a user of it sees it: which servers are active and which have failed, without
-- their order and the times of their failures.
pub mod Steps
use crate_python.Prelude.{
  refl, true, [], List, Text, ◌≡◌, ◌∷◌, subst, contains, ◌++◌, arith, inl, inr, ℕ, Bool-cases, ltb,
  ◌+◌, ap, ◌∙◌, zero, suc, sym, length, false, text_eq_iff,
}
use mathlib.Core.Quot
use native.Mathlib.Nat.{ℕ_set}
use mathlib.Core.Quot.{Quot, Quot-set}
use crate_python.Http.Client.{
  Client, Down, Env, Config, get_server, drop_server, restore, restore_step, next_turn, heappush,
  remove, retry_interval,
}
use crate_python.Http.Client.Turn.{next_turn_elim}
use crate_python.Http.Client.Counts.{
  count, count_down, count-remove, count_down-heappush, take_next-occurrences,
}
use crate_python.Http.Client.Threads.{Step, Reach}
use crate_python.Http.Client.Valid.{add_server-lists}

abbrev pub SameServers : List Text → List Text → Type 0
SameServers xs ys = (s : Text) → count s xs ≡ count s ys

abbrev pub Bag : Type 0
Bag = Quot SameServers

abbrev pub bag : List Text → Bag
bag = Quot.mk

pub SameServers-cons :
    (t : Text) (xs ys : List Text) → SameServers xs ys → SameServers (t ∷ xs) (t ∷ ys)
unfolding count
SameServers-cons t xs ys h s = omega (arith, h s)

abbrev pub put : Text → Bag → Bag
put t = Quot.lift Quot-set (λ xs. bag (t ∷ xs)) (λ xs ys h. Quot.sound (SameServers-cons t xs ys h))

abbrev pub servers : List Down → List Text
servers [] = []
servers (d ∷ heap) = d.server ∷ servers heap

count-servers : (s : Text) (heap : List Down) → count s (servers heap) ≡ count_down s heap
unfolding count count_down
count-servers s [] = refl
count-servers s (d ∷ heap) = omega (arith, count-servers s heap)

-- The active servers, and those that failed.
abbrev pub View : Type 0
View = Bag × Bag

abbrev pub view : Client → View
view c = (bag c.active, bag (servers c.inactive))

-- How often a server stands in a bag.
abbrev pub in_bag : Text → Bag → ℕ
in_bag s = Quot.lift ℕ_set (count s) (λ xs ys h. h s)

-- Servers that had failed come back, one after the other.
pub data Returns (u : View) : View → Type 0 where
  none_yet : Returns u u
  comes_back :
      {v w : View}
      → Returns u v
      → (s : Text) (a f : Bag) → v ≡ (a, put s f)
      → w ≡ (put s a, f)
      → Returns u w

Returns-trans : {u v w : View} → Returns u v → Returns v w → Returns u w
Returns-trans m none_yet = m
Returns-trans m (comes_back n s a f e k) = comes_back (Returns-trans m n) s a f e k

-- What happens to a pool that a user can see: a server is asked for, or one is reported as failing.
pub data Event : Type 0 where
  asked : Event
  reported : Text → Event

-- One event. When a server is asked for, servers come back, and none fails. When an active server is
-- reported, it fails, and none comes back; a report of a server that is not active changes nothing.
pub data Happens (u : View) : Event → View → Type 0 where
  returns : {v : View} → Returns u v → Happens u asked v
  fails :
      {v : View} (s : Text) (a f : Bag)
      → u ≡ (put s a, f)
      → v ≡ (a, put s f)
      → Happens u (reported s) v
  not_active : {v : View} (s : Text) → in_bag s u.0 ≡ 0 → u ≡ v → Happens u (reported s) v

-- The events of a list, the last first.
pub data Moves (u : View) : List Event → View → Type 0 where
  unmoved : {v : View} → u ≡ v → Moves u [] v
  then_happens :
      {e : Event} {events : List Event} {v w : View}
      → Moves u events v
      → Happens v e w
      → Moves u (e ∷ events) w

-- The events of a run of steps, the newest first. Adding a server's connection pool and sending are none.
abbrev pub events : {env : Env} {cfg : Config} {c d : Client} → Reach env cfg c d → List Event
events Reach.here = []
events (Reach.next r Step.take) = asked ∷ events r
events (Reach.next r (Step.drop s m)) = reported s ∷ events r
events (Reach.next r (Step.add s)) = events r
events (Reach.next r (Step.send sent)) = events r

Moves-same : {u v : View} {es : List Event} → Moves u es v → {w : View} → v ≡ w → Moves u es w
Moves-same {u} {v} {es} m e = subst (Moves u es) e m

returned : {u v : View} → u ≡ v → Returns u v
returned {u} e = subst (Returns u) e none_yet

pushed :
    (d : Down) (heap : List Down) → bag (servers (heappush d heap)) ≡ bag (d.server ∷ servers heap)
unfolding count count_down
pushed d heap = Quot.sound λ s.
    omega
      (arith, count-servers s (heappush d heap), count_down-heappush s d heap, count-servers s heap)

appended : (t : Text) (xs : List Text) → bag (xs ++ t ∷ []) ≡ bag (t ∷ xs)
appended t xs = Quot.sound (λ s. take_next-occurrences s t xs)

removed : (t : Text) (xs : List Text) → contains t xs ≡ true → bag xs ≡ bag (t ∷ remove t xs)
unfolding count
removed t xs h = Quot.sound (λ s. omega (arith, count-remove s t xs h))

count-absent : (t : Text) (xs : List Text) → contains t xs ≡ false → count t xs ≡ 0
unfolding count contains
count-absent t [] h = refl
count-absent t (x ∷ xs) h = ground (arith, count-absent t xs, text_eq_iff x t)
