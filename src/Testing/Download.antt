-- ===== src/Testing/Download.antt =====
-- testing/layer.py, `from_uri`: the server's files are downloaded unless they are there, and the layer
-- that is made of them may remove them when it is torn down.
pub mod Again
use crate_python.Prelude.{[], ◌∷◌, ◌++◌, none, some, Option, Text, str, Bool, if◌then◌else◌}
use crate_python.Prelude.Dict.{Dict, lookup}
use crate_python.Exec.{Exec, ◌>>=◌, ◌>>◌, pure, case_option, ok}
use crate_python.Testing.Layer
use crate_python.Testing.Layer.{Machine, stop}

-- The standard library's files, with the disks `D` that they work on.
pub record Files (D : Type 0) : Type 0 where
  pub join_path : Text → Text → Text
  pub basename : Text → Text
  pub exists : Text → D → Bool
  pub mkdtemp : Exec D Text
  pub rmtree : Text → Exec D (Unit {0})
  -- `_download_and_extract`
  pub download : Text → Text → Exec D (Unit {0})

-- What `\.tar(\.gz)?$` matches, with what stays: `$` also stands before a last line feed.
abbrev tar_ends : Dict Text
tar_ends =
    (str ".tar", [])
    ∷ (str ".tar.gz", [])
    ∷ (str ".tar\n", str "\n")
    ∷ (str ".tar.gz\n", str "\n")
    ∷ []

-- `re.sub(r'\.tar(\.gz)?$', '', filename)`
unfoldable pub crate_dir : Text → Text
crate_dir [] = []
crate_dir (c ∷ s) =
    let rest = crate_dir s in elim (lookup (c ∷ s) tar_ends) [ none ↦ c ∷ rest | some left ↦ left ]

-- What a layer is made of that its methods do not change: its home, and the directory that its
-- `tearDown` removes first, if it was replaced.
pub record Installed : Type 0 where
  pub crate_home : Text
  pub removes : Option Text

-- A disk, and the layer's own state.
pub record Site (D : Type 0) : Type 0 where
  pub disk : D
  pub layer : Layer.Layer

module _ {D : Type 0} (files : Files D) where
  -- `directory or tempfile.mkdtemp()`
  unfoldable pub or_temporary : Option Text → Exec D Text
  or_temporary none = files.mkdtemp
  or_temporary (some []) = files.mkdtemp
  or_temporary (some (c ∷ d)) = pure (c ∷ d)

  unfoldable pub extract_once : Text → Text → Text → Exec D (Unit {0})
  extract_once uri directory crate_home disk =
      if files.exists crate_home disk then (ok tt, disk) else files.download uri directory disk

  abbrev pub home_of : Text → Text → Text
  home_of uri directory = files.join_path directory (crate_dir (files.basename uri))

  -- `from_uri`
  unfoldable pub from_uri : Text → Option Text → Bool → Exec D Installed
  unfolding or_temporary extract_once
  from_uri uri directory cleanup = do
    dir ← or_temporary directory
    extract_once uri dir (home_of uri dir)
    pure (record { crate_home = home_of uri dir; removes = if cleanup then some dir else none })

  on_disk : {A : Type 0} → Exec D A → Exec (Site D) A
  on_disk f s = let r = f s.disk in (r.0, record s { disk = r.1 })

  on_layer : {A : Type 0} → Exec Layer.Layer A → Exec (Site D) A
  on_layer f s = let r = f s.layer in (r.0, record s { layer = r.1 })

  -- `tearDown` of the class, or `new_teardown`
  unfoldable pub tear_down : Machine → Installed → Exec (Site D) (Unit {0})
  unfolding on_disk on_layer
  tear_down m i = do
    case_option i.removes (pure tt) (λ d. on_disk (files.rmtree d))
    on_layer (stop m)
