-- ===== src/Cursor/Executemany/Sums.antt =====
-- `executemany` on servers with bulk operations and on those without.
use crate_python.Version.{Version}
use crate_python.Json
use crate_python.Exec.Runs.{bind-ok}
use crate_python.Cursor.Executemany.Totals.{
  IsOpen, counted, get-is_empty, Totals, Answers, finish-Totals, one_by_one-counted,
}
use crate_python.Prelude.Int.{ℤ}
use crate_python.Cursor.{execute, duration, Session}
use crate_python.Exec.{Exec, ok, ◌>>=◌}
use crate_python.Cursor.Executemany.{
  kept_counts, in_bulk, kept, field_count, read_results, executemany, has_bulk, finish, one_by_one,
}
use crate_python.Json.{Json, Fields, Items}
use crate_python.Prelude.{
  refl, none, some, [], List, Option, ◌≡◌, arith, str, ◌∙◌, ◌∷◌, true, false,
}

-- Each entry of the results has its row count.
abbrev pub RowCounts : List Json → List ℤ → Type 0
RowCounts [] [] = Unit
RowCounts (r ∷ rs) (n ∷ ns) =
    ((fs : Fields) × (r ≡ Json.obj fs) × (Json.get (str "rowcount") fs ≡ some (Json.num n)))
    × RowCounts rs ns
RowCounts rs ns = ⊥

field_count-num :
    (r : Json) (fs : Fields) (n : ℤ)
    → r ≡ Json.obj fs
    → Json.get (str "rowcount") fs ≡ some (Json.num n)
    → field_count r ≡ ok n
field_count-num r fs n e h = ground arith

kept_counts-counted :
    (rs : List Json) (ns : List ℤ) → RowCounts rs ns → kept_counts rs ≡ ok (counted ns)
unfolding kept_counts
kept_counts-counted [] [] h = refl
kept_counts-counted (r ∷ rs) (n ∷ ns) ((fs, e, g), h) =
    rw (field_count-num r fs n e g, kept_counts-counted rs ns h) refl
kept_counts-counted [] (n ∷ ns) h = elim h [ ]
kept_counts-counted (r ∷ rs) [] h = elim h [ ]

-- A call of the client that ends in the answer of a bulk operation: a result for each set of
-- parameters, of row counts `ns`, and no rows.
pub record BulkAnswer {S : Type 0} (sql : Exec S (Option Fields)) (c c' : S) (ns : List ℤ) (d : ℤ)
    : Type 0 where
  pub fields : Fields
  pub results : Items
  pub answers : sql c ≡ (ok (some fields), c')
  pub has_no_rows : Json.get (str "rows") fields ≡ none
  pub has_results : Json.get (str "results") fields ≡ some (Json.arr results)
  pub has_counts : RowCounts (Json.of_items results) ns
  pub has_duration : Json.get (str "duration") fields ≡ some (Json.num d)

module _ {S : Type 0} where
  abbrev after_bulk :
      {sql : Exec S (Option Fields)} {c' : S} {ns : List ℤ} {d : ℤ} (s : Session S)
      → BulkAnswer sql s.client c' ns d
      → Session S
  after_bulk {c' = c'} s a = record s {
    client = c';
    cursor = record s.cursor { result = some a.fields };
  }

  execute_bulk :
      {sql : Exec S (Option Fields)} {c' : S} {ns : List ℤ} {d : ℤ} (s : Session S)
      (a : BulkAnswer sql s.client c' ns d)
      → IsOpen s
      → execute sql s ≡ (ok tt, after_bulk s a)
  unfolding execute
  execute_bulk s a o = ground arith

  duration_bulk :
      {sql : Exec S (Option Fields)} {c' : S} {ns : List ℤ} {d : ℤ} (s : Session S)
      (a : BulkAnswer sql s.client c' ns d)
      → IsOpen s
      → duration (after_bulk s a).cursor ≡ Json.num d
  unfolding duration
  duration_bulk s a o = ground (arith, get-is_empty (str "duration") a.fields a.has_duration)

  read_bulk :
      {sql : Exec S (Option Fields)} {c' : S} {ns : List ℤ} {d : ℤ} (s : Session S)
      (a : BulkAnswer sql s.client c' ns d)
      → IsOpen s
      → read_results (after_bulk s a) ≡ (ok (counted ns, kept d []), after_bulk s a)
  unfolding read_results ◌>>=◌
  read_bulk {ns = ns} s a o =
      ground
        (arith, kept_counts-counted (Json.of_items a.results) ns a.has_counts, duration_bulk s a o)

  in_bulk-counted :
      {sql : Exec S (Option Fields)} {c' : S} {ns : List ℤ} {d : ℤ} (s : Session S)
      (a : BulkAnswer sql s.client c' ns d)
      → IsOpen s
      → in_bulk sql s ≡ (ok (counted ns, kept d []), after_bulk s a)
  unfolding in_bulk
  in_bulk-counted {sql} {ns = ns} {d = d} s a o =
      bind-ok (execute sql) _ s tt (after_bulk s a) (execute_bulk s a o) ∙ read_bulk s a o

  -- On servers with bulk operations, where the client's one call is answered with a row count for
  -- each set of parameters, `executemany` returns, and leaves the sum of the row counts that are not
  -- negative (-1 if there is none), the duration of the call, and no rows.
  pub executemany-bulk :
      (lowest : Version) (sql : Exec S (Option Fields)) (sqls : List (Exec S (Option Fields)))
      (s : Session S) (c' : S) (ns : List ℤ) (d : ℤ)
      → has_bulk lowest ≡ true
      → IsOpen s
      → BulkAnswer sql s.client c' ns d
      → (v : Json) × (t : Session S) × (executemany lowest sql sqls s ≡ (ok v, t))
        × Totals (counted ns) (kept d []) t
        × (t.client ≡ c')
  unfolding executemany
  executemany-bulk lowest sql sqls s c' ns d b o a =
      let (v, t, e, totals, f) =
        finish-Totals (counted ns) (kept d []) (after_bulk s a)
          (record { connection = o.connection; cursor = o.cursor }) (a.fields, refl) in
      (v, t, rw b (bind-ok (in_bulk sql) finish s _ _ (in_bulk-counted s a o) ∙ e), totals, f)

  -- On servers without bulk operations, where each of one or more calls is answered with rows, a row
  -- count and a duration, `executemany` returns, and leaves the sum of the row counts that are not
  -- negative (-1 if there is none), that of the durations, and no rows.
  pub executemany-one_by_one :
      (lowest : Version) (bulk_sql sql : Exec S (Option Fields))
      (sqls : List (Exec S (Option Fields))) (s : Session S) (c' : S) (ns ds : List ℤ)
      → has_bulk lowest ≡ false
      → IsOpen s
      → Answers (sql ∷ sqls) s.client c' ns ds
      → (v : Json) × (t : Session S) × (executemany lowest bulk_sql (sql ∷ sqls) s ≡ (ok v, t))
        × Totals (counted ns) (counted ds) t
        × (t.client ≡ c')
  unfolding executemany
  executemany-one_by_one lowest bulk_sql sql sqls s c' ns ds b o answers =
      let (s', e, o', f, h) = one_by_one-counted (sql ∷ sqls) s c' ns ds answers o tt in
      let (v, t, e', totals, f') = finish-Totals (counted ns) (counted ds) s' o' h in
      (v, t, rw b (bind-ok (one_by_one (sql ∷ sqls)) finish s _ _ e ∙ e'), totals, f' ∙ f)
