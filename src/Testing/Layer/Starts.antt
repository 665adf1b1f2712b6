-- ===== src/Testing/Layer/Starts.antt =====
-- How `start` ends.
use crate_python.Exceptions.{builtin_error, system_error, attribute_error}
use crate_python.Testing.Layer.Log.{IsTalking}
use crate_python.Testing.Layer.Validators.{HasMaster}
use crate_python.Exec.{Exec, case_option, ◌>>=◌, pure, gets, modify, raise, err}
use crate_python.Prelude.{
  ◌+◌, ◌<◌, Option, ℕ, suc, none, some, true, refl, ◌≡◌, ◌≤◌, Text, false, str,
}
use crate_python.Testing.Layer.{Machine, Layer, stop, start, await, clean, poll, end_process}
use crate_python.Testing.Layer.Waits.{IsUp, IsDown}

-- What `start` leaves when it returns: a server that is up, has answered a request for the start and
-- has named its master since; or nothing if no address was found.
pub data IsStarted (m : Machine) (s : Layer) : Type 0 where
  serves : IsUp s → HasMaster m s.requests → IsStarted m s
  gave_up : s.http_url ≡ none → IsDown s → IsStarted m s

module _ (m : Machine) (exits : m.exits ≡ true)
    (monotonic : (k : ℕ) → m.time k ≤ m.time (suc k)) where
  module _ (talking : IsTalking m) (f : ℕ)
      (slow : (k : ℕ) → 30000 + m.time k < m.time (suc k + f)) where
    IsFound : Layer → Type 0
    IsFound s = s.process ≡ true

    wait_or_stop : Option Text → Exec Layer (Unit {0})
    wait_or_stop url = case_option url (stop m) (λ u. await m (suc f))

-- If the process ends at once, `start` raises SystemError. If there never was a monitor, `stop` then
-- raises AttributeError, and a directory that the process had made stays.
pub start-stop :
    (m : Machine) (fuel rc : ℕ) (s : Layer)
    → m.returncode ≡ some rc
    → m.exits ≡ true
    → s.monitor ≡ false
    → (start m fuel s ≡ (
      err (builtin_error system_error (str "Failed to start server")),
      record s { process = true; data_dir = m.makes_data },
    ))
      × ((stop m (start m fuel s).1).0
          ≡ err (builtin_error attribute_error (str "object has no attribute 'monitor'")))
      × ((stop m (start m fuel s).1).1.data_dir ≡ m.makes_data)
unfolding start stop clean poll end_process ◌>>=◌ modify gets raise pure
start-stop m fuel rc s gone exits none_read = rw (gone, exits, none_read) (refl, refl, refl)
