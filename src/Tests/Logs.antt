-- ===== src/Tests/Logs.antt =====
-- A buffer that is registered between two lines, and the names of downloads.
use crate_python.Prelude.Dict.{lookup}
use crate_python.Prelude.{refl, [], ◌∷◌, ◌++◌, List, str, ◌≡◌, text_eq}
use crate_python.Testing.Monitor.{
  Event, Monitor, reads, registers, takes_away, happen_all, strip_right, strip_left,
}
use crate_python.Testing.Monitor.Heard.{heard, registered, happen_all-lines, copies}
use crate_python.Testing.Download.{crate_dir}

abbrev quiet : Monitor
quiet = record { consumers = []; lines = λ b. [] }

abbrev a_wait : List Event
a_wait =
    reads (str "before\n")
    ∷ registers 1
    ∷ reads (str "  started \n")
    ∷ takes_away 1
    ∷ reads (str "after\n")
    ∷ []

happen_all-lines_example :
    (happen_all a_wait quiet).lines 1
    ≡ quiet.lines 1 ++ heard 1 (registered 1 quiet.consumers) a_wait
happen_all-lines_example = happen_all-lines 1 a_wait quiet

heard_test : heard 1 (registered 1 quiet.consumers) a_wait ≡ str "started" ∷ []
unfolding heard registered str copies strip_right strip_left
heard_test = refl

crate_dir_test :
    (crate_dir (str "crate-4.0.tar.gz") ≡ str "crate-4.0")
    × (crate_dir (str "crate.tgz") ≡ str "crate.tgz")
unfolding crate_dir str lookup text_eq
crate_dir_test = (refl, refl)
