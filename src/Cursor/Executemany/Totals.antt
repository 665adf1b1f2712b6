-- ===== src/Cursor/Executemany/Totals.antt =====
-- The totals that `executemany` leaves: the sum of the row counts that are not negative, or -1.
use crate_python.Exec.Runs.{bind-ok}
use crate_python.Cursor.Executemany.{kept, reading, one_by_one, sum_or_none, finish, summary}
use crate_python.Json.{end, field, Fields, Items, Json}
use crate_python.Prelude.Int.{ℤ, pos, negsuc}
use crate_python.Cursor.{Session, execute, rowcount, duration, is_empty, Cursor, field}
use crate_python.Exec.{Exec, ok, ◌>>=◌, ◌>>◌, pure}
use crate_python.Prelude.{
  some, false, [], List, Option, ◌≡◌, ℕ, ◌∷◌, str, arith, refl, Text, ◌∙◌, ◌++◌, text_eq,
}
use crate_python.Json

-- A call of the client that ends in an answer with rows, the row count `n` and the duration `d`.
pub record Answer {S : Type 0} (sql : Exec S (Option Fields)) (c c' : S) (n d : ℤ) : Type 0 where
  pub fields : Fields
  pub rows : Items
  pub answers : sql c ≡ (ok (some fields), c')
  pub has_rows : Json.get (str "rows") fields ≡ some (Json.arr rows)
  pub has_count : Json.get (str "rowcount") fields ≡ some (Json.num n)
  pub has_duration : Json.get (str "duration") fields ≡ some (Json.num d)

pub get-is_empty :
    (k : Text) (fs : Fields) {v : Json} → Json.get k fs ≡ some v → is_empty fs ≡ false
unfolding Json.get
get-is_empty k end h = ground arith
get-is_empty k (field j v fs) h = refl

-- The row counts that say something are added up.
abbrev pub counted : List ℤ → List ℕ
counted [] = []
counted (n ∷ ns) = kept n (counted ns)

kept-append : (n : ℤ) (ns : List ℕ) → kept n [] ++ ns ≡ kept n ns
kept-append (pos n) ns = refl
kept-append (negsuc n) ns = refl

module _ {S : Type 0} where
  pub record IsOpen (s : Session S) : Type 0 where
    pub connection : s.connection_closed ≡ false
    pub cursor : s.cursor.closed ≡ false

  -- The session after the answer.
  abbrev pub after_answer :
      {sql : Exec S (Option Fields)} {c' : S} {n d : ℤ} (s : Session S)
      → Answer sql s.client c' n d
      → Session S
  after_answer {c' = c'} s a = record s {
    client = c';
    cursor = record s.cursor { result = some a.fields; rows = some (Json.of_items a.rows) };
  }

  execute-Answer :
      {sql : Exec S (Option Fields)} {c' : S} {n d : ℤ} (s : Session S)
      (a : Answer sql s.client c' n d)
      → IsOpen s
      → execute sql s ≡ (ok tt, after_answer s a)
  unfolding execute
  execute-Answer s a o = ground arith

  rowcount-Answer :
      {sql : Exec S (Option Fields)} {c' : S} {n d : ℤ} (s : Session S)
      (a : Answer sql s.client c' n d)
      → IsOpen s
      → rowcount (after_answer s a).cursor ≡ Json.num n
  unfolding rowcount
  rowcount-Answer s a o = ground (arith, get-is_empty (str "rows") a.fields a.has_rows)

  duration-Answer :
      {sql : Exec S (Option Fields)} {c' : S} {n d : ℤ} (s : Session S)
      (a : Answer sql s.client c' n d)
      → IsOpen s
      → duration (after_answer s a).cursor ≡ Json.num d
  unfolding duration
  duration-Answer s a o = ground (arith, get-is_empty (str "duration") a.fields a.has_duration)

  pub reading_number :
      (property : Cursor → Json) (n : ℤ) (s : Session S)
      → property s.cursor ≡ Json.num n
      → reading property [] s ≡ (ok (kept n []), s)
  unfolding reading ◌>>=◌
  reading_number property n s e = rw e refl

  -- One statement of the loop, with its two readings.
  round-Answer :
      {B : Type 0} {sql : Exec S (Option Fields)} {c' : S} {n d : ℤ} (s : Session S)
      (a : Answer sql s.client c' n d) (k : List ℕ → List ℕ → Exec (Session S) B)
      → IsOpen s
      → (do
        execute sql
        counts ← reading rowcount []
        durations ← reading duration []
        k counts durations)
          s
        ≡ k (kept n []) (kept d []) (after_answer s a)
  round-Answer {n = n} {d = d} s a k o =
      bind-ok (execute _) _ s tt _ (execute-Answer s a o)
      ∙ bind-ok (reading rowcount []) _ (after_answer s a) (kept n []) (after_answer s a)
          (reading_number rowcount n (after_answer s a) (rowcount-Answer s a o))
      ∙ bind-ok (reading duration []) _ (after_answer s a) (kept d []) (after_answer s a)
          (reading_number duration d (after_answer s a) (duration-Answer s a o))

  -- The calls are answered one after the other, from the client's state `c` to `c'`, with the row
  -- counts `ns` and the durations `ds`.
  abbrev pub Answers : List (Exec S (Option Fields)) → S → S → List ℤ → List ℤ → Type 0
  Answers [] c c' [] [] = c ≡ c'
  Answers (sql ∷ sqls) c c' (n ∷ ns) (d ∷ ds) =
      (next : S) × Answer sql c next n d × Answers sqls next c' ns ds
  Answers _ c c' ns ds = ⊥

  abbrev pub HasResult : Session S → Type 0
  HasResult s = (fs : Fields) × (s.cursor.result ≡ some fs)

  abbrev pub Starts : List (Exec S (Option Fields)) → Session S → Type 0
  Starts [] s = HasResult s
  Starts (sql ∷ sqls) s = Unit

  pub one_by_one-counted :
      (sqls : List (Exec S (Option Fields))) (s : Session S) (c' : S) (ns ds : List ℤ)
      → Answers sqls s.client c' ns ds
      → IsOpen s
      → Starts sqls s
      → (s' : Session S) × (one_by_one sqls s ≡ (ok (counted ns, counted ds), s'))
        × IsOpen s'
        × (s'.client ≡ c')
        × HasResult s'
  unfolding one_by_one pure
  one_by_one-counted [] s c' [] [] e o h = (s, refl, o, e, h)
  one_by_one-counted [] s c' [] (d ∷ ds) e o h = elim e [ ]
  one_by_one-counted [] s c' (n ∷ ns) ds e o h = elim e [ ]
  one_by_one-counted (sql ∷ sqls) s c' [] ds e o h = elim e [ ]
  one_by_one-counted (sql ∷ sqls) s c' (n ∷ ns) [] e o h = elim e [ ]
  one_by_one-counted (sql ∷ sqls) s c' (n ∷ ns) (d ∷ ds) (next, a, more) o h =
      let s1 : Session S = after_answer s a in
      let (s', e, o', f, r) =
        one_by_one-counted sqls s1 c' ns ds more
          (record { connection = o.connection; cursor = o.cursor }) (starts sqls) in
      (
        s',
        round-Answer s a _ o
            ∙ bind-ok (one_by_one sqls) _ s1 (counted ns, counted ds) s' e
            ∙ rw (kept-append n (counted ns), kept-append d (counted ds)) refl,
        o',
        f,
        r,
      )
    where
      starts : (l : List (Exec S (Option Fields))) → Starts l (after_answer s a)
      starts [] = (a.fields, refl)
      starts (q ∷ qs) = tt

  -- What `executemany` leaves in the cursor: the two totals, and no rows.
  pub record Totals (counts durations : List ℕ) (s : Session S) : Type 0 where
    pub rowcount_is : rowcount s.cursor ≡ Json.num (sum_or_none counts)
    pub duration_is : duration s.cursor ≡ Json.num (sum_or_none durations)
    pub no_rows : s.cursor.rows ≡ some []

  pub finish-Totals :
      (counts durations : List ℕ) (s : Session S)
      → IsOpen s
      → HasResult s
      → (v : Json) × (t : Session S) × (finish (counts, durations) s ≡ (ok v, t))
        × Totals counts durations t
        × (t.client ≡ s.client)
  unfolding finish ◌>>=◌ rowcount Json.get text_eq str duration
  finish-Totals counts durations s o (fs, h) = (
    Json.get_or (str "results") Json.null fs,
    record s {
      cursor = record s.cursor {
        result = some (
            summary counts durations (Json.get_or (str "cols") (Json.arr Json.nil) fs)
              (Json.get_or (str "results") Json.null fs));
        rows = some [];
      };
    },
    rw h refl,
    record { rowcount_is = rw o.cursor refl; duration_is = rw o.cursor refl; no_rows = refl },
    refl,
  )
