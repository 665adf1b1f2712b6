-- ===== src/Cursor/Kept.antt =====
-- An invariant of the client's state that `sql` keeps is kept by the methods of a cursor.
use crate_python.Json.{Fields, Json}
use crate_python.Prelude.Int.{ℤ, pos, negsuc}
use crate_python.Exec.Keeps.{
  Keeps, Keeps-modify, keeps_rules, Keeps-bind, Keeps-diverge, Keeps-gets, Keeps-lift, Keeps-pure,
  Keeps-case_option,
}
use crate_python.Exec.{Exec, raise, Result, pure, ◌>>=◌, ◌>>◌, gets, lift}
use crate_python.Prelude.{
  zero, suc, none, some, true, false, [], Bool, ℕ, Option, List, if◌then◌else◌, ◌∷◌,
}
use crate_python.Cursor.{
  Session, call_client, set_cursor, advance, or_stop, fetch_count, execute, next_row, fetchone,
  fetch_times, fetchall, fetchmany, close,
}
use crate_python.Cursor

module _ {S : Type 0} (IsGood : S → Type 0) where
  abbrev pub Good : Session S → Type 0
  Good s = IsGood s.client

  pub set_cursor-Keeps : (f : Cursor.Cursor → Cursor.Cursor) → Keeps Good (set_cursor f)
  unfolding set_cursor
  set_cursor-Keeps f = Keeps-modify _ (λ s h. h)

  call_client-Keeps : (m : Exec S (Option Fields)) → Keeps IsGood m → Keeps Good (call_client m)
  unfolding call_client
  call_client-Keeps m k = record { at = λ s h. k.at s.client h }

  -- What `execute` does when the connection and the cursor are open.
  called : Exec S (Option Fields) → Exec (Session S) (Unit {0})
  called sql = do
    result ← call_client sql
    set_cursor (λ c. record c { result = result })
    old ← gets (λ s'. s'.cursor.rows)
    rows ← lift (Cursor.with_rows result old)
    set_cursor (λ c. record c { rows = rows })

  called-Keeps : (sql : Exec S (Option Fields)) → Keeps IsGood sql → Keeps Good (called sql)
  unfolding called
  called-Keeps sql k = Keeps-bind _ _ (call_client-Keeps sql k) λ result.
      Keeps-bind _ _ (set_cursor-Keeps _) λ _.
        Keeps-bind _ _ (Keeps-gets _)
          λ old. Keeps-bind _ _ (Keeps-lift _) λ rows. set_cursor-Keeps _

  pub if-Good :
      {A : Type 0} (b : Bool) (x y : Result A × Session S)
      → Good x.1
      → Good y.1
      → Good (if b then x else y).1
  if-Good true x y h k = h
  if-Good false x y h k = k

  pub execute-Keeps : (sql : Exec S (Option Fields)) → Keeps IsGood sql → Keeps Good (execute sql)
  unfolding execute called raise
  execute-Keeps sql k = record {
    at = λ s h.
        if-Good s.connection_closed _ _ h
          (if-Good s.cursor.closed _ (called sql s) h ((called-Keeps sql k).at s h));
  }

  advance-Good : (rows : Option (List Json)) (s : Session S) → Good s → Good (advance rows s).1
  unfolding advance raise pure
  advance-Good none s h = h
  advance-Good (some []) s h = if-Good s.cursor.closed _ _ h h
  advance-Good (some (row ∷ rows)) s h = if-Good s.cursor.closed _ _ h h

  pub next_row-Keeps : Keeps Good (next_row {S = S})
  unfolding next_row
  next_row-Keeps = record { at = λ s h. advance-Good s.cursor.rows s h }

  pub fetchone-Keeps : Keeps Good (fetchone {S = S})
  unfolding fetchone or_stop
  fetchone-Keeps = search (keeps_rules, next_row-Keeps) depth 12

  fetch_times-Keeps : (n : ℕ) → Keeps Good (fetch_times {S = S} n)
  unfolding fetch_times
  fetch_times-Keeps zero = search (keeps_rules)
  fetch_times-Keeps (suc n) =
      Keeps-bind _ _ fetchone-Keeps λ row. Keeps-bind _ _ (fetch_times-Keeps n) λ rest. Keeps-pure _

  pub fetchall-Keeps : (fuel : ℕ) → Keeps Good (fetchall {S = S} fuel)
  unfolding fetchall
  fetchall-Keeps zero = Keeps-diverge Good
  fetchall-Keeps (suc fuel) = Keeps-bind _ _ fetchone-Keeps λ row.
      Keeps-case_option row _ _ (Keeps-pure [])
        λ r. Keeps-bind _ _ (fetchall-Keeps fuel) λ rest. Keeps-pure _

  fetch_count-Keeps : (fuel : ℕ) (count : ℤ) → Keeps Good (fetch_count {S = S} fuel count)
  unfolding fetch_count
  fetch_count-Keeps fuel (pos zero) = fetchall-Keeps fuel
  fetch_count-Keeps fuel (pos (suc n)) = fetch_times-Keeps (suc n)
  fetch_count-Keeps fuel (negsuc n) = search (keeps_rules)

  pub fetchmany-Keeps : (fuel : ℕ) (count : Option ℤ) → Keeps Good (fetchmany {S = S} fuel count)
  unfolding fetchmany
  fetchmany-Keeps fuel none = record {
    at = λ s h. (fetch_count-Keeps fuel (pos s.cursor.arraysize)).at s h;
  }
  fetchmany-Keeps fuel (some count) = record { at = λ s h. (fetch_count-Keeps fuel count).at s h }

  pub close-Keeps : Keeps Good (close {S = S})
  unfolding close
  close-Keeps = set_cursor-Keeps _
