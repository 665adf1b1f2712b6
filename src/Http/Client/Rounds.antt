-- ===== src/Http/Client/Rounds.antt =====
-- The servers are used in turn, and `_get_server` finds one whenever there is one.
use crate_python.Prelude.{
  ℕ, zero, suc, ◌+◌, ◌<◌, ◌≡◌, refl, ◌∙◌, ap, sym, List, [], ◌∷◌, ◌++◌, Text, length, map,
  append-nil, append_assoc, length-append, arith, true, contains,
}
use crate_python.Exec.{Result, ok}
use crate_python.Http.Client.Turn.{next_turn_active, next_turn_elim}
use crate_python.Http.Client.{
  Down, Client, heappush, restore_step, restore, next_turn, get_server, remove, drop_server,
}

-- `n` calls of `_get_server`, with their results.
unfoldable pub get_servers : (ℕ → ℕ) → ℕ → Client → List (Result Text) × Client
get_servers time zero c = ([], c)
get_servers time (suc n) c =
    let (r, c') = get_server time c in let (rs, c'') = get_servers time n c' in (r ∷ rs, c'')

get_server_alone :
    (time : ℕ → ℕ) (c : Client) (x : Text) (rest : List Text)
    → c.inactive ≡ []
    → c.active ≡ x ∷ rest
    → get_server time c ≡ (ok x, record c { active = rest ++ x ∷ [] })
unfolding get_server restore
get_server_alone time c x rest e f =
    ap (λ (i : List Down). next_turn (restore time (length i) c)) e ∙ next_turn_active c x rest f

rounds :
    (time : ℕ → ℕ) (xs ys : List Text) (c : Client)
    → c.inactive ≡ []
    → c.active ≡ xs ++ ys
    → get_servers time (length xs) c ≡ (map ok xs, record c { active = ys ++ xs })
unfolding get_servers
rounds time [] ys c e f =
    ap {B = List (Result Text) × Client} (λ a. ([], record c { active = a }))
      (f ∙ sym (append-nil ys))
rounds time (x ∷ xs) ys c e f =
    let c' : Client = record c { active = (xs ++ ys) ++ x ∷ [] } in
    rw (
      get_server_alone time c x (xs ++ ys) e f,
      rounds time xs (ys ++ x ∷ []) c' e (append_assoc xs ys (x ∷ [])),
      append_assoc,
    )

-- While no server has failed, as many calls of `_get_server` as there are servers return each of
-- them once, in their order, and leave the client as it was.
pub get_servers_round :
    (time : ℕ → ℕ) (c : Client)
    → c.inactive ≡ []
    → get_servers time (length c.active) c ≡ (map ok c.active, c)
get_servers_round time c e = rounds time c.active [] c e (sym (append-nil c.active))

-- How many servers the client knows, active or not.
abbrev pub size : Client → ℕ
size c = length c.active + length c.inactive

length-heappush : (d : Down) (heap : List Down) → length (heappush d heap) ≡ suc (length heap)
unfolding heappush
length-heappush d [] = refl
length-heappush d (e ∷ heap) = ground (arith, length-heappush d heap)

restore_step-size :
    (time : ℕ → ℕ) (heap : List Down) (c : Client)
    → length heap ≡ length c.inactive
    → size (restore_step time heap c) ≡ size c
unfolding restore_step
restore_step-size time [] c e = refl
restore_step-size time (d ∷ heap) c e =
    ground (arith, length-heappush d heap, length-append c.active (d.server ∷ []))

restore-size : (time : ℕ → ℕ) (n : ℕ) (c : Client) → size (restore time n c) ≡ size c
unfolding restore
restore-size time zero c = refl
restore-size time (suc n) c = restore-size time n _ ∙ restore_step-size time c.inactive c refl

next_turn_total :
    (c : Client)
    → 0 < size c
    → (s : Text) × (rest : List Text) × ((next_turn c).0 ≡ ok s)
      × ((next_turn c).1.active ≡ rest ++ s ∷ [])
next_turn_total c h =
    next_turn_elim
      (λ r. (s : Text) × (rest : List Text) × (r.0 ≡ ok s) × (r.1.active ≡ rest ++ s ∷ [])) c
      (λ x rest e. (x, rest, refl, refl)) (λ d heap e k. (d.server, [], refl, refl))
      (λ e k. absurd (omega (arith, ap length e, ap length k)))

-- A client with a server, active or not, is always given one, at any time, and that server then
-- stands last in the active list.
pub get_server_total :
    (time : ℕ → ℕ) (c : Client)
    → 0 < length c.active + length c.inactive
    → (s : Text) × (rest : List Text) × ((get_server time c).0 ≡ ok s)
      × ((get_server time c).1.active ≡ rest ++ s ∷ [])
unfolding get_server
get_server_total time c h =
    next_turn_total (restore time (length c.inactive) c)
      (omega (arith, restore-size time (length c.inactive) c))

next_turn-size : (c : Client) → size (next_turn c).1 ≡ size c
next_turn-size c =
    next_turn_elim (λ r. size r.1 ≡ size c) c
      (λ x rest e. omega (arith, ap length e, length-append rest (x ∷ [])))
      (λ d heap e k. omega (arith, ap length e, ap length k)) (λ e k. refl)

pub get_server-size : (time : ℕ → ℕ) (c : Client) → size (get_server time c).1 ≡ size c
unfolding get_server
get_server-size time c =
    next_turn-size (restore time (length c.inactive) c) ∙ restore-size time (length c.inactive) c

pub length-remove :
    (s : Text) (xs : List Text) → contains s xs ≡ true → suc (length (remove s xs)) ≡ length xs
unfolding remove contains
length-remove s [] h = ground arith
length-remove s (x ∷ xs) h = ground (arith, length-remove s xs)

pub drop_server-size :
    (time : ℕ → ℕ) (s m : Text) (c : Client) → size (drop_server time s m c).1 ≡ size c
unfolding drop_server
drop_server-size time s m c = ground (
  arith,
  length-remove s c.active,
  length-heappush (record { ts = time c.reads; server = s; message = m }) c.inactive,
)
