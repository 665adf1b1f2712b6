-- ===== src/Testing/Layer/Validators.antt =====
-- The validators of `_wait_for_start` and `_wait_for_master` only ask, and what it means that they say
-- yes.
use crate_python.Json
use crate_python.Json.{Json, Fields, Items}
use crate_python.Exceptions.{Exn}
use crate_python.Exec.Ends.{
  Ends-try_except, Ends-bind, Ends-pure, Ends-if, EndsWith, Ends-raise, Ends-weaken,
}
use crate_python.Prelude.{
  false, inl, inr, ℕ, ◌⊎◌, ◌==◌, refl, suc, some, true, ◌<◌, ◌≡◌, arith, str, ◌∙◌, ap,
}
use crate_python.Testing.Layer.{
  Machine, Layer, is_started, has_master, told, ask, master_node, rows_of, first_item,
}
use crate_python.Testing.Layer.Waits.{AtWith, IsKept, Known, IsQuiet}

-- One of the first `r` requests was the one for the start, and answered with status 200.
abbrev pub HasStarted : Machine → Known
HasStarted m r = (i : ℕ) × (i < r) × (m.head i ≡ inr 200)

-- The answer has a row whose first value is a node's name.
abbrev pub NamesNode : Json → Type 0
NamesNode body =
    (fs : Fields) × (node : Json) × (row rows : Items) × (body ≡ Json.obj fs)
    × (Json.get (str "rows") fs ≡ some (Json.arr (Json.cons (Json.arr (Json.cons node row)) rows)))
    × (Json.truthy node ≡ true)

-- After the start was seen, a request for the master was answered with status 200 and a node.
abbrev pub HasMaster : Machine → Known
HasMaster m r =
    (i j : ℕ) × (body : Json) × (i < j)
    × (j < r)
    × (m.head i ≡ inr 200)
    × (m.master j ≡ inr (200, body))
    × NamesNode body

first_item-inr :
    (m : Machine) (v w : Json)
    → first_item m v ≡ inr w
    → (vs : Items) × (v ≡ Json.arr (Json.cons w vs))
first_item-inr m (Json.arr (Json.cons v vs)) w e = (vs, ground (arith, e))
first_item-inr m (Json.arr Json.nil) w e = absurd (ground (arith, e))
first_item-inr m Json.null w e = absurd (ground (arith, e))
first_item-inr m (Json.bool b) w e = absurd (ground (arith, e))
first_item-inr m (Json.num n) w e = absurd (ground (arith, e))
first_item-inr m (Json.text t) w e = absurd (ground (arith, e))
first_item-inr m (Json.obj fs) w e = absurd (ground (arith, e))

rows_of-inr :
    (m : Machine) (body rows : Json)
    → rows_of m body ≡ inr rows
    → (fs : Fields) × (body ≡ Json.obj fs) × (Json.get (str "rows") fs ≡ some rows)
rows_of-inr m (Json.obj fs) rows e = (fs, refl, ground (arith, e))
rows_of-inr m (Json.arr vs) w e = absurd (ground (arith, e))
rows_of-inr m Json.null w e = absurd (ground (arith, e))
rows_of-inr m (Json.bool b) w e = absurd (ground (arith, e))
rows_of-inr m (Json.num n) w e = absurd (ground (arith, e))
rows_of-inr m (Json.text t) w e = absurd (ground (arith, e))

equal_200 : (n : ℕ) → (n == 200) ≡ true → n ≡ 200
equal_200 n e = ground (arith, e)

module _ (m : Machine) where
  told-Ends :
      {A : Type 0} (Pre : Layer → Type 0) (r : Exn ⊎ A)
      → EndsWith ⊥ Pre (told m r) (λ a s. Pre s × (r ≡ inr a)) (λ _. Pre)
  unfolding told
  told-Ends Pre (inl e) = Ends-raise e (λ s h. h)
  told-Ends Pre (inr a) = Ends-pure a (λ s h. (h, refl))

  -- After a request, which is the last of those sent.
  ask-Ends :
      {A : Type 0} (P : Known) (kept : IsKept P) (k n : ℕ) (f : ℕ → Exn ⊎ A)
      → EndsWith ⊥
          (AtWith P k n)
          (ask m f)
          (λ a s. AtWith P k n s × ((i : ℕ) × P i × (s.requests ≡ suc i) × (f i ≡ inr a)))
          (λ _. AtWith P k n)
  unfolding ask told
  ask-Ends {A} P kept k n f = record {
    at = λ s (h, p).
        (Ends-weaken (told m (f s.requests))
            (told-Ends (λ t. AtWith P k n t × (t.requests ≡ suc s.requests)) (f s.requests))
            (λ t h. h) (λ a t h. (h.0.0, (s.requests, p, h.0.1, h.1))) (λ e t h. h.0)).at
          (record s { requests = suc s.requests })
          (
            (
              record {
                reads = h.reads;
                sleeps = h.sleeps;
                up = record { running = h.up.running; read = h.up.read };
              },
              kept s.requests p,
            ),
            refl,
          );
  }

  pub HasStarted-IsKept : IsKept (HasStarted m)
  HasStarted-IsKept r (i, l, e) = (i, omega (arith, l), e)

  pub is_started-IsQuiet : IsQuiet (λ _. Unit) (HasStarted m) (is_started m)
  unfolding is_started
  is_started-IsQuiet k n =
      Ends-try_except (λ _. AtWith (λ _. Unit) k n) _ _
        (Ends-bind _ _ _ (ask-Ends (λ _. Unit) (λ r p. tt) k n m.head) (λ status.
          Ends-pure _ (λ s (h, (i, p, e, answer)).
            (h, λ ok_. (i, omega (arith, e), answer ∙ ap inr (equal_200 status ok_))))))
        (λ e. Ends-pure false (λ s h. (h, λ no. absurd (ground (arith, no)))))

  master_node-Ends :
      (Pre : Layer → Type 0) (body : Json)
      → EndsWith ⊥ Pre (master_node m body) (λ b s. Pre s × (b ≡ true → NamesNode body)) (λ _. Pre)
  unfolding master_node
  master_node-Ends Pre body = Ends-bind _ _ _ (told-Ends Pre (rows_of m body)) (λ rows.
      Ends-bind _ _ _
        (Ends-weaken _ (told-Ends _ (first_item m rows)) (λ s h. h) (λ _ s h. h) (λ _ s h. h.0))
        (λ row.
          Ends-bind _ _ _
            (Ends-weaken _ (told-Ends _ (first_item m row)) (λ s h. h) (λ _ s h. h)
              (λ _ s h. h.0.0))
            (λ node. Ends-pure _ (λ s (((h, e), f), g). (
              h,
              λ yes_.
                  let (fs, at_rows, in_rows) = rows_of-inr m body rows e in
                  let (others, at_row) = first_item-inr m rows row f in
                  let (rest, at_node) = first_item-inr m row node g in
                  (
                    fs,
                    node,
                    rest,
                    others,
                    at_rows,
                    in_rows ∙ ap some (at_row ∙ ap (λ r. Json.arr (Json.cons r others)) at_node),
                    yes_,
                  ),
            )))))

  pub has_master-IsQuiet : IsQuiet (HasStarted m) (HasMaster m) (has_master m)
  unfolding has_master
  has_master-IsQuiet k n =
      Ends-bind _ _ _ (ask-Ends (HasStarted m) HasStarted-IsKept k n m.master) (λ answer.
        Ends-if (answer.0 == 200) (master_node m answer.1) _
          (λ is_ok.
            Ends-weaken _ (master_node-Ends _ answer.1) (λ s h. h)
              (λ b s ((h, (j, (i, l, up), e, asked)), named).
                let asked_200 : m.master j ≡ inr (200, answer.1) =
                  asked ∙ ap (λ n. inr (n, answer.1)) (equal_200 answer.0 is_ok) in
                (h, λ yes_. (i, j, answer.1, l, omega (arith, e), up, asked_200, named yes_)))
              (λ _ s h. h.0))
          (λ _. Ends-pure false (λ s h. (h.0, λ no. absurd (ground (arith, no))))))
