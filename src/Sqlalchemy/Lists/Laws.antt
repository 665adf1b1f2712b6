-- ===== src/Sqlalchemy/Lists/Laws.antt =====
-- What the methods of a list do to its items, and how often they say that it changed.
use crate_python.Exceptions.{Exn, index_error, value_error, builtin_error}
use crate_python.Exec.{raise, Result, err, ok}
use crate_python.Prelude.Int.{ℤ, pos, negsuc}
use crate_python.Json.{Json}
use crate_python.Prelude.{
  refl, zero, suc, some, [], ℕ, List, Bool, length, ◌<◌, ◌≤◌, ◌≡◌, ◌∷◌, arith, none, true, false,
  Option, ◌+◌, ◌++◌, ap, All, Bool-cases, inl, inr, sym, subst, append-nil,
}
use crate_python.Sqlalchemy.Lists.{
  MutableList, Method, call_method, set_at, insert_at, remove_at, index_of, place, insert_place,
  changed_at,
}
use crate_python.Sqlalchemy.Lists

-- At the place `n`, the items `old` of `before` are `new` in `after`, and all others are the same.
pub record IsSplice (n : ℕ) (old new before after : List Json) : Type 0 where
  pub front : List Json
  pub back : List Json
  pub place_is : length front ≡ n
  pub was : before ≡ front ++ (old ++ back)
  pub now : after ≡ front ++ (new ++ back)

-- The index names this place of a list of `n` items; a negative one counts from the end.
abbrev pub IsAt : ℕ → ℤ → ℕ → Type 0
IsAt n (pos j) k = (k ≡ j) × (k < n)
IsAt n (negsuc j) k = k + suc j ≡ n

-- The same, but an index beyond an end names that end.
abbrev pub IsClamped : ℕ → ℤ → ℕ → Type 0
IsClamped n (pos j) k = (j ≤ n → k ≡ j) × (n ≤ j → k ≡ n)
IsClamped n (negsuc j) k = (suc j ≤ n → k + suc j ≡ n) × (n ≤ suc j → k ≡ 0)

module _ (equal : Json → Json → Bool) where
  abbrev pub AreOther : Json → List Json → Type 0
  AreOther v us = All (λ u. equal u v ≡ false) us

  -- What a method is to do to the items
  abbrev pub IsDone : Method → List Json → List Json → Type 0
  IsDone (Lists.set_item i v) us ws =
      (k : ℕ) × (u : Json) × IsAt (length us) i k × IsSplice k (u ∷ []) (v ∷ []) us ws
  IsDone (Lists.append v) us ws = IsSplice (length us) [] (v ∷ []) us ws
  IsDone (Lists.extend vs) us ws = IsSplice (length us) [] vs us ws
  IsDone (Lists.insert i v) us ws =
      (k : ℕ) × IsClamped (length us) i k × IsSplice k [] (v ∷ []) us ws
  IsDone (Lists.pop i) us ws =
      (k : ℕ) × (u : Json) × IsAt (length us) i k × IsSplice k (u ∷ []) [] us ws
  IsDone (Lists.remove v) us ws =
      (front back : List Json) × (u : Json) × (us ≡ front ++ (u ∷ back))
      × (equal u v ≡ true)
      × AreOther v front
      × (ws ≡ front ++ back)

  -- When a method raises, and what
  abbrev pub IsRefused : Method → List Json → Exn → Type 0
  IsRefused (Lists.set_item i v) us e = (e.cls ≡ index_error) × ((k : ℕ) → IsAt (length us) i k → ⊥)
  IsRefused (Lists.pop i) us e = (e.cls ≡ index_error) × ((k : ℕ) → IsAt (length us) i k → ⊥)
  IsRefused (Lists.remove v) us e = (e.cls ≡ value_error) × AreOther v us
  IsRefused _ us e = ⊥

  -- The method raised, and the list is as it was; or it was done, with one notice.
  pub data IsCalled (op : Method) (l : MutableList) (r : Result (Unit {0}) × MutableList)
      : Type 0 where
    unchanged : (e : Exn) → r ≡ (err e, l) → IsRefused op l.items e → IsCalled op l r
    changed_once :
        (items : List Json)
        → r ≡ (ok tt, record { items = items; changes = suc l.changes })
        → IsDone op l.items items
        → IsCalled op l r

one_later :
    (n : ℕ) (u : Json) (old new before after : List Json)
    → IsSplice n old new before after
    → IsSplice (suc n) old new (u ∷ before) (u ∷ after)
one_later n u old new before after s = record {
  front = u ∷ s.front;
  back = s.back;
  place_is = ap suc s.place_is;
  was = ap (λ us. u ∷ us) s.was;
  now = ap (λ us. u ∷ us) s.now;
}

set_at-IsSplice :
    (k : ℕ) (v : Json) (us : List Json)
    → k < length us
    → (u : Json) × IsSplice k (u ∷ []) (v ∷ []) us (set_at k v us)
unfolding set_at
set_at-IsSplice k v [] h = absurd (ground (arith, h))
set_at-IsSplice zero v (u ∷ us) h =
    (u, record { front = []; back = us; place_is = refl; was = refl; now = refl })
set_at-IsSplice (suc k) v (u ∷ us) h =
    let (w, s) = set_at-IsSplice k v us (ground (arith, h)) in
    (w, one_later k u (w ∷ []) (v ∷ []) us (set_at k v us) s)

remove_at-IsSplice :
    (k : ℕ) (us : List Json)
    → k < length us
    → (u : Json) × IsSplice k (u ∷ []) [] us (remove_at k us)
unfolding remove_at
remove_at-IsSplice k [] h = absurd (ground (arith, h))
remove_at-IsSplice zero (u ∷ us) h =
    (u, record { front = []; back = us; place_is = refl; was = refl; now = refl })
remove_at-IsSplice (suc k) (u ∷ us) h =
    let (w, s) = remove_at-IsSplice k us (ground (arith, h)) in
    (w, one_later k u (w ∷ []) [] us (remove_at k us) s)

insert_at-IsSplice :
    (k : ℕ) (v : Json) (us : List Json)
    → k ≤ length us
    → IsSplice k [] (v ∷ []) us (insert_at k v us)
unfolding insert_at
insert_at-IsSplice zero v us h = record {
  front = [];
  back = us;
  place_is = refl;
  was = refl;
  now = refl;
}
insert_at-IsSplice (suc k) v [] h = absurd (ground (arith, h))
insert_at-IsSplice (suc k) v (u ∷ us) h =
    one_later k u [] (v ∷ []) us (insert_at k v us) (insert_at-IsSplice k v us (ground (arith, h)))

append-IsSplice : (us vs : List Json) → IsSplice (length us) [] vs us (us ++ vs)
append-IsSplice [] vs = record {
  front = [];
  back = [];
  place_is = refl;
  was = refl;
  now = sym (append-nil vs);
}
append-IsSplice (u ∷ us) vs = one_later (length us) u [] vs us (us ++ vs) (append-IsSplice us vs)

place-IsAt : (n : ℕ) (i : ℤ) (k : ℕ) → place n i ≡ some k → IsAt n i k × (k < n)
place-IsAt n (pos j) k h = (ground (arith, h), ground (arith, h))
place-IsAt n (negsuc j) k h = (ground (arith, h), ground (arith, h))

no_place : (n : ℕ) (i : ℤ) → place n i ≡ none → (k : ℕ) → IsAt n i k → ⊥
no_place n (pos j) h k at = ground (arith, h, at)
no_place n (negsuc j) h k at = ground (arith, h, at)

insert_place-IsClamped : (n : ℕ) (i : ℤ) → IsClamped n i (insert_place n i) × (insert_place n i ≤ n)
insert_place-IsClamped n (pos j) = ((λ h. ground (arith, h), λ h. ground (arith, h)), ground arith)
insert_place-IsClamped n (negsuc j) = ((λ h. omega (arith, h), λ h. omega (arith, h)), omega arith)

module _ (equal : Json → Json → Bool) where
  -- Where `index_of` finds the value, or that it is not there.
  Found : Json → List Json → Option ℕ → Type 0
  Found v us none = AreOther equal v us
  Found v us (some k) = IsDone equal (Lists.remove v) us (remove_at k us)

  index_of-Found : (v : Json) (us : List Json) → Found v us (index_of equal v us)
  unfolding index_of Found remove_at
  index_of-Found v [] = tt
  index_of-Found v (u ∷ us) = elim (Bool-cases (equal u v)) [
    | inl same ↦ rw same ([], us, u, refl, same, tt, refl)
    | inr other ↦ rw other (further (index_of equal v us) other (index_of-Found v us))
  ]
    where
      further :
          (o : Option ℕ)
          → equal u v ≡ false
          → Found v us o
          → Found v (u ∷ us) (elim o [ none ↦ none | some k ↦ some (suc k) ])
      further none other h = (other, h)
      further (some k) other (front, back, w, at, same, others, rest) =
          (u ∷ front, back, w, ap (λ ws. u ∷ ws) at, same, (other, others), ap (λ ws. u ∷ ws) rest)

  at-IsCalled :
      (op : Method) (l : MutableList) (e : Exn) (o : Option ℕ) (f : ℕ → List Json)
      → (o ≡ none → IsRefused equal op l.items e)
      → ((k : ℕ) → o ≡ some k → IsDone equal op l.items (f k))
      → IsCalled equal op l (changed_at e o f l)
  unfolding Lists.changed raise
  at-IsCalled op l e none f refused done = unchanged e refl (refused refl)
  at-IsCalled op l e (some k) f refused done = changed_once (f k) refl (done k refl)

-- Each method that `MutableList` defines, `extend` with a list, either raises and leaves the list as it
-- was, or says once that the list was changed. `append` and `extend` put the items at the end, `insert`
-- puts one at its index or at the end beyond which the index lies, an assignment puts one in the
-- place of the one at its index, `pop` takes the item at its index away, and `remove` the first that
-- equals the value; all other items stay, in order. An assignment and `pop` raise IndexError, and only
-- where the index names no item, and `remove` raises ValueError, and only where no item equals the value.
pub call_method-IsCalled :
    (equal : Json → Json → Bool) (op : Method) (l : MutableList)
    → IsCalled equal op l (call_method equal op l)
unfolding call_method Lists.changed builtin_error Found
call_method-IsCalled equal (Lists.set_item i v) l =
    at-IsCalled equal _ l _ (place (length l.items) i) (λ k. set_at k v l.items)
      (λ h. (refl, no_place (length l.items) i h))
      (λ k h.
        let (at, bound) = place-IsAt (length l.items) i k h in
        let (u, s) = set_at-IsSplice k v l.items bound in (k, u, at, s))
call_method-IsCalled equal (Lists.append v) l =
    changed_once _ refl (append-IsSplice l.items (v ∷ []))
call_method-IsCalled equal (Lists.insert i v) l =
    let (at, bound) = insert_place-IsClamped (length l.items) i in
    changed_once _ refl (_, at, insert_at-IsSplice _ v l.items bound)
call_method-IsCalled equal (Lists.extend vs) l = changed_once _ refl (append-IsSplice l.items vs)
call_method-IsCalled equal (Lists.pop i) l =
    at-IsCalled equal _ l _ (place (length l.items) i) (λ k. remove_at k l.items)
      (λ h. (refl, no_place (length l.items) i h))
      (λ k h.
        let (at, bound) = place-IsAt (length l.items) i k h in
        let (u, s) = remove_at-IsSplice k l.items bound in (k, u, at, s))
call_method-IsCalled equal (Lists.remove v) l =
    let found = index_of-Found equal v l.items in
    at-IsCalled equal _ l _ (index_of equal v l.items) (λ k. remove_at k l.items)
      (λ h. (refl, subst (Found equal v l.items) h found))
      (λ k h. subst (Found equal v l.items) h found)
