-- ===== src/Cursor.antt =====
-- client/cursor.py. The server's answers are taken to be JSON objects, and a number in them to be an
-- integer. `sql` is the `sql` method of the connection's client, with its state.
pub mod Fetch
pub mod Executemany
pub mod Kept
use crate_python.Exceptions.{
  Exn, same_class, builtin_error, type_error, attribute_error, programming_error_of, stop_iteration,
  key_error,
}
use crate_python.Prelude.{
  zero, suc, none, some, true, false, [], ℕ, Bool, Option, List, Text, str, ◌∷◌, if◌then◌else◌, ◌+◌,
}
use crate_python.Prelude.Int.{ℤ, pos, negsuc}
use crate_python.Exec.{
  ◌>>=◌, ◌>>◌, Result, Exec, pure, ok, err, modify, raise, try_except, diverge, case_option, gets,
  lift, on_ok,
}
use crate_python.Json
use crate_python.Json.{Json, Items, Fields, end, field}

-- `rows` is the iterator over the rows of the result: those that are left.
pub record Cursor : Type 0 where
  pub arraysize : ℕ
  pub closed : Bool
  pub result : Option Fields
  pub rows : Option (List Json)

-- A cursor with its connection, whose client's state is `S`.
pub record Session (S : Type 0) : Type 0 where
  pub cursor : Cursor
  pub connection_closed : Bool
  pub client : S

-- `Cursor.__init__`
abbrev pub new_cursor : Cursor
new_cursor = record { arraysize = 1; closed = false; result = none; rows = none }

abbrev iterable : Json → Result (List Json)
iterable (Json.arr xs) = ok (Json.of_items xs)
iterable _ = err (builtin_error type_error (str "object is not iterable"))

abbrev no_result : Exn
no_result = builtin_error type_error (str "argument of type 'NoneType' is not iterable")

-- `if "rows" in self._result: self.rows = iter(self._result["rows"])`
with_rows : Option Fields → Option (List Json) → Result (Option (List Json))
with_rows none old = err no_result
with_rows (some fs) old = elim (Json.get (str "rows") fs) [
  | none ↦ ok old
  | some v ↦ on_ok (iterable v) (λ rows. ok (some rows))
]

module _ {S : Type 0} where
  pub set_cursor : (Cursor → Cursor) → Exec (Session S) (Unit {0})
  set_cursor f = modify (λ s. record s { cursor = f s.cursor })

  -- The call of the client.
  call_client : Exec S (Option Fields) → Exec (Session S) (Option Fields)
  call_client m s = let (r, client) = m s.client in (r, record s { client = client })

  -- `execute`, of the client's `sql` with its arguments
  unfoldable pub execute : Exec S (Option Fields) → Exec (Session S) (Unit {0})
  unfolding set_cursor call_client with_rows ◌>>=◌
  execute sql s =
      if s.connection_closed
      then raise (programming_error_of (str "Connection closed") none) s
      else if s.cursor.closed
      then raise (programming_error_of (str "Cursor closed") none) s
      else (do
        result ← call_client sql
        set_cursor (λ c. record c { result = result })
        old ← gets (λ s'. s'.cursor.rows)
        rows ← lift (with_rows result old)
        set_cursor (λ c. record c { rows = rows }))
          s

  advance : Option (List Json) → Exec (Session S) Json
  advance none s =
      raise
        (programming_error_of
          (str "No result available. execute() or executemany() must be called first.") none)
        s
  advance (some rows) s =
      if s.cursor.closed
      then raise (programming_error_of (str "Cursor closed") none) s
      else elim rows [
        | [] ↦ raise (builtin_error stop_iteration []) s
        | row ∷ rest ↦ pure row (record s { cursor = record s.cursor { rows = some rest } })
      ]

  -- `next`
  unfoldable pub next_row : Exec (Session S) Json
  unfolding advance pure raise
  next_row s = advance s.cursor.rows s

  -- `try: … except StopIteration: …`
  or_stop : {A : Type 0} → Exec (Session S) A → A → Exec (Session S) A
  or_stop m a = try_except m (λ e. if same_class e.cls stop_iteration then pure a else raise e)

  unfoldable pub fetchone : Exec (Session S) (Option Json)
  unfolding or_stop next_row ◌>>=◌ same_class builtin_error
  fetchone = or_stop (do row ← next_row; pure (some row)) none

  -- The loop of `fetchmany`.
  unfoldable pub fetch_times : ℕ → Exec (Session S) (List Json)
  unfolding fetchone
  fetch_times zero = pure []
  fetch_times (suc n) = do
    row ← fetchone
    rest ← fetch_times n
    pure (elim row [ none ↦ rest | some r ↦ r ∷ rest ])

  -- The loop of `fetchall`, on fuel.
  unfoldable pub fetchall : ℕ → Exec (Session S) (List Json)
  unfolding fetchone
  fetchall zero = diverge
  fetchall (suc fuel) = do
    row ← fetchone
    case_option row (pure []) (λ r. do rest ← fetchall fuel; pure (r ∷ rest))

  fetch_count : ℕ → ℤ → Exec (Session S) (List Json)
  fetch_count fuel (pos zero) = fetchall fuel
  fetch_count fuel (pos (suc n)) = fetch_times (suc n)
  fetch_count fuel (negsuc n) = pure []

  -- `count` is `none` for the default, the cursor's `arraysize`.
  unfoldable pub fetchmany : ℕ → Option ℤ → Exec (Session S) (List Json)
  unfolding fetch_count ◌>>=◌
  fetchmany fuel none s = fetch_count fuel (pos s.cursor.arraysize) s
  fetchmany fuel (some count) s = fetch_count fuel count s

  unfoldable pub close : Exec (Session S) (Unit {0})
  unfolding set_cursor
  close = set_cursor (λ c. record c { closed = true; result = none })

abbrev is_empty : Fields → Bool
is_empty end = true
is_empty (field k v fs) = false

-- `self._result`, unless the cursor is closed or the result is empty or lacks the key
abbrev usable : Cursor → Text → Option Fields
usable c key = if c.closed then none else elim c.result [
  | none ↦ none
  | some fs ↦
      if is_empty fs then none else elim (Json.get key fs) [ none ↦ none | some v ↦ some fs ]
]

unfoldable pub rowcount : Cursor → Json
rowcount c = elim (usable c (str "rows")) [
  | none ↦ Json.num (negsuc 0)
  | some fs ↦ Json.get_or (str "rowcount") (Json.num (negsuc 0)) fs
]

unfoldable pub duration : Cursor → Json
duration c = elim (usable c (str "duration")) [
  | none ↦ Json.num (negsuc 0)
  | some fs ↦ Json.get_or (str "duration") (Json.num (pos 0)) fs
]

-- Each entry of a description has the column and six `None`s, of which only the column is kept.
unfoldable pub description : Cursor → Result (Option (List Json))
description c = if c.closed then ok none else elim c.result [
  | none ↦ err no_result
  | some fs ↦ elim (Json.get (str "cols") fs) [
    | none ↦ err (builtin_error key_error (str "cols"))
    | some v ↦ on_ok (iterable v) (λ cols. ok (some cols))
  ]
]
