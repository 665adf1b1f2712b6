-- ===== src/Testing/Monitor.antt =====
-- testing/layer.py, `OutputMonitor` and `LineBuffer`: the lines of the server's output go to the buffers
-- that are registered while they are read. A line is handed to all of them in one go.
pub mod Heard
use crate_python.Prelude.{
  [], ◌∷◌, ◌++◌, ℕ, suc, zero, List, Text, Bool, if◌then◌else◌, leb, ◌&&◌, ◌||◌, ◌==◌, true, false,
}

-- A white space of bytes
abbrev is_blank : ℕ → Bool
is_blank c = c == 32 || (leb 9 c && leb c 13)

unfoldable pub strip_left : Text → Text
strip_left [] = []
strip_left (c ∷ s) = let rest = strip_left s in if is_blank c then rest else c ∷ s

abbrev keep_if_text : ℕ → Text → Text
keep_if_text c [] = if is_blank c then [] else c ∷ []
keep_if_text c (d ∷ s) = c ∷ d ∷ s

unfoldable pub strip_right : Text → Text
strip_right [] = []
strip_right (c ∷ s) = keep_if_text c (strip_right s)

-- `line.strip()`
abbrev pub strip : Text → Text
strip line = strip_right (strip_left line)

-- The list `consumers`, which holds buffers, each known by a number, and the lines of every buffer.
pub record Monitor : Type 0 where
  pub consumers : List ℕ
  pub lines : ℕ → List Text

-- `LineBuffer.send`
unfoldable pub send_line : Text → ℕ → (ℕ → List Text) → ℕ → List Text
send_line line buffer lines b = if buffer == b then lines b ++ strip line ∷ [] else lines b

-- The inner loop of `OutputMonitor.consume`
unfoldable pub consume_line : Text → List ℕ → (ℕ → List Text) → ℕ → List Text
consume_line line [] lines = lines
consume_line line (buffer ∷ consumers) lines =
    consume_line line consumers (send_line line buffer lines)

-- `consumers.remove(line_buf)`. Of a buffer that is not there it raises, and leaves the list.
unfoldable pub remove_buffer : ℕ → List ℕ → List ℕ
remove_buffer b [] = []
remove_buffer b (c ∷ cs) = let rest = remove_buffer b cs in if c == b then cs else c ∷ rest

-- What happens to a monitor: its thread reads a line, or `_wait_for` registers a buffer or takes it away.
pub data Event : Type 0 where
  reads : Text → Event
  registers : ℕ → Event
  takes_away : ℕ → Event

unfoldable pub happen : Event → Monitor → Monitor
happen (reads line) m = record m { lines = consume_line line m.consumers m.lines }
happen (registers b) m = record m { consumers = m.consumers ++ b ∷ [] }
happen (takes_away b) m = record m { consumers = remove_buffer b m.consumers }

unfoldable pub happen_all : List Event → Monitor → Monitor
happen_all [] m = m
happen_all (e ∷ events) m = happen_all events (happen e m)
