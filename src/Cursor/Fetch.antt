-- ===== src/Cursor/Fetch.antt =====
-- The rows of a result leave a cursor in order, each once.
use crate_python.Exec.Runs.{bind-ok}
use crate_python.Json.{Json}
use crate_python.Cursor.{Session, fetchone, fetch_times, fetchmany, fetchall}
use crate_python.Prelude.{
  refl, zero, suc, none, some, false, [], List, ℕ, ◌≡◌, length, ◌<◌, ◌∷◌, take, arith, drop, ◌∙◌,
  take-nil, drop-nil,
}
use crate_python.Prelude.Int.{pos}
use crate_python.Exec.{ok, pure}

-- A cursor that can be read: open, with the rows that are left.
abbrev pub holding : {S : Type 0} → Session S → List Json → Session S
holding s rows = record s { cursor = record s.cursor { closed = false; rows = some rows } }

module _ {S : Type 0} (s : Session S) where
  fetchone-some :
      (row : Json) (rest : List Json)
      → fetchone (holding s (row ∷ rest)) ≡ (ok (some row), holding s rest)
  unfolding fetchone
  fetchone-some row rest = refl

  fetchone_end : fetchone (holding s []) ≡ (ok none, holding s [])
  unfolding fetchone
  fetchone_end = refl

  -- On an open cursor `fetchall` returns all rows that are left, in order, and leaves none, given
  -- more fuel than there are rows.
  pub fetchall_lem :
      (fuel : ℕ) (rows : List Json)
      → length rows < fuel
      → fetchall fuel (holding s rows) ≡ (ok rows, holding s [])
  unfolding fetchall
  fetchall_lem zero rows h = absurd (omega arith)
  fetchall_lem (suc fuel) [] h = refl
  fetchall_lem (suc fuel) (row ∷ rows) h =
      bind-ok (fetchall fuel) (λ rest. pure (row ∷ rest)) (holding s rows) rows (holding s [])
        (fetchall_lem fuel rows (omega arith))

  fetch_times_lem :
      (n : ℕ) (rows : List Json)
      → fetch_times n (holding s rows) ≡ (ok (take n rows), holding s (drop n rows))
  unfolding fetch_times
  fetch_times_lem zero rows = refl
  fetch_times_lem (suc n) [] =
      bind-ok (fetch_times n) (λ rest. pure rest) (holding s []) _ _ (fetch_times_lem n [])
      ∙ rw (take-nil, drop-nil)
  fetch_times_lem (suc n) (row ∷ rows) =
      bind-ok (fetch_times n) (λ rest. pure (row ∷ rest)) (holding s rows) _ _
        (fetch_times_lem n rows)

  -- On an open cursor `fetchmany(n)`, for an `n` above 0, returns the next `n` rows, fewer if fewer are
  -- left, and leaves the rest.
  pub fetchmany_lem :
      (fuel n : ℕ) (rows : List Json)
      → 0 < n
      → fetchmany fuel (some (pos n)) (holding s rows) ≡ (ok (take n rows), holding s (drop n rows))
  unfolding fetchmany
  fetchmany_lem fuel zero rows h = absurd (omega arith)
  fetchmany_lem fuel (suc n) rows h = fetch_times_lem (suc n) rows
