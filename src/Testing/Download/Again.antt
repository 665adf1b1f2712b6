-- ===== src/Testing/Download/Again.antt =====
-- The same download again, and the end of a layer whose files are removed.
use crate_python.Prelude.{◌∷◌, some, Text, Bool, true, ◌≡◌, ℕ, refl}
use crate_python.Exceptions.{Exn}
use crate_python.Exec.{err, ◌>>=◌, case_option}
use crate_python.Testing.Layer.{Machine}
use crate_python.Testing.Download.{Files, Site, from_uri, tear_down, home_of, extract_once, on_disk}

module _ {D : Type 0} (files : Files D) where
  -- A second `from_uri` with a directory that holds the server's home touches nothing.
  pub from_uri_again :
      (uri : Text) (c : ℕ) (d : Text) (cleanup : Bool) (disk : D)
      → files.exists (home_of files uri (c ∷ d)) disk ≡ true
      → (from_uri files uri (some (c ∷ d)) cleanup disk).1 ≡ disk
  unfolding from_uri ◌>>=◌ extract_once
  from_uri_again uri c d cleanup disk h = rw h refl

  -- When the removal of the files raises, the server is not stopped.
  pub tear_down-raises :
      (m : Machine) (home dir : Text) (e : Exn) (s : Site D) (disk : D)
      → files.rmtree dir s.disk ≡ (err e, disk)
      → tear_down files m (record { crate_home = home; removes = some dir }) s
        ≡ (err e, record s { disk = disk })
  unfolding tear_down ◌>>=◌ case_option on_disk
  tear_down-raises m home dir e s disk h = rw h refl
