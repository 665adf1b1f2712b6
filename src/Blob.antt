-- ===== src/Blob.antt =====
-- client/blob.py: a container of blobs, whose methods call those of the connection's client.
pub mod Put
use crate_python.Http.Methods.{blob_del, blob_exists, blob_put, blob_get}
use crate_python.Http.Value.{Response}
use crate_python.Exec.{Exec, ◌>>=◌, pure}
use crate_python.Http.Client.{Env, Config, Client}
use crate_python.Json
use crate_python.Http.SuperLen.{Body}
use crate_python.Prelude.{some, Text, ℕ, drop, Option, Bool, ◌∷◌}

-- A file object: what `super_len` finds of it, its bytes, and where it stands.
pub record File : Type 0 where
  pub body : Body
  pub position : ℕ

-- `_compute_digest(f)` reads the file from its start and goes back to it. `sha1` is `hashlib.sha1`
-- with `hexdigest`.
unfoldable pub compute_digest : (Text → Text) → File → Text × File
compute_digest sha1 f = (sha1 f.body.content, record f { position = 0 })

-- What is sent of a file: its bytes from where it stands on.
unfoldable pub sent_body : File → Body
sent_body f = record f.body { content = drop f.position f.body.content }

-- What `put` returns: the digest, or whether the blob is new.
pub data PutAnswer : Type 0 where
  digest_of : Text → PutAnswer
  created : Option Bool → PutAnswer

module _ (lib : Json.Library) (env : Env) (cfg : Config) (fuel : ℕ) (sha1 : Text → Text) where
  -- `put` of the container `name`; an empty digest counts as none.
  unfoldable pub put : Text → File → Option Text → Exec Client PutAnswer
  put name f (some (c ∷ digest)) =
      blob_put lib env cfg fuel name (c ∷ digest) (sent_body f) >>= λ answer. pure (created answer)
  put name f _ =
      let digested = compute_digest sha1 f in
      blob_put lib env cfg fuel name digested.0 (sent_body digested.1) >>= λ answer.
      pure (digest_of digested.0)

  unfoldable pub get : Text → Text → ℕ → Exec Client (Response × ℕ)
  get name digest chunk_size = blob_get lib env cfg fuel name digest chunk_size

  unfoldable pub delete : Text → Text → Exec Client (Option Bool)
  delete name digest = blob_del lib env cfg fuel name digest

  unfoldable pub exists : Text → Text → Exec Client (Option Bool)
  exists name digest = blob_exists lib env cfg fuel name digest
