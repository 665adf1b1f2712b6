-- ===== src/Driver/Closed.antt =====
-- What is called on a cursor after it was closed.
use crate_python.Driver.{SqlClient, Call}
use crate_python.Prelude.{none, true, ℕ, Bool, Option, List, ◌≡◌}
use crate_python.Exceptions.{Exn}
use crate_python.Exec.{Exec, err}
use crate_python.Json.{Json}
use crate_python.Version.{Version}
use crate_python.Cursor.{Session, execute, fetchone, fetchall}
use crate_python.Cursor.Executemany.{executemany}

-- A closed cursor, with its connection closed or not.
abbrev pub shut : {S : Type 0} → ℕ → Option (List Json) → S → Bool → Session S
shut arraysize rows client b = record {
  cursor = record { arraysize = arraysize; closed = true; result = none; rows = rows };
  connection_closed = b;
  client = client;
}

-- The method raises, and changes nothing.
abbrev pub Refuses : {S A : Type 0} → Exec (Session S) A → Session S → Type 0
Refuses m s = (e : Exn) × (m s ≡ (err e, s))

-- What asks the server, or for a row.
abbrev pub IsWork : Call → Type 0
IsWork (Call.execute stmt args) = Unit
IsWork (Call.executemany stmt seq) = Unit
IsWork Call.fetchone = Unit
IsWork Call.next = Unit
IsWork Call.fetchall = Unit
IsWork _ = ⊥

module _ {S : Type 0} (client : SqlClient S) (lowest : Version) (fuel : ℕ) (size : ℕ) (c : S)
    (rows : Option (List Json)) where
  IsShut : Session S → Type 0
  IsShut s = (b : Bool) × (s ≡ shut size rows c b)
