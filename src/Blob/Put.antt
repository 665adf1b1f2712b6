-- ===== src/Blob/Put.antt =====
-- An upload without a digest.
use crate_python.Http.Methods.{blob_put}
use crate_python.Blob.{put, File, compute_digest, sent_body, digest_of, created}
use crate_python.Http.Client.{Env, Config, Client}
use crate_python.Exec.{out_of_fuel, pure, ◌>>=◌, Result, Exec, continue, ok, err}
use crate_python.Prelude.{refl, none, some, [], ◌≡◌, ℕ, Text, ◌≢◌, ◌∙◌, ◌∷◌, sym}
use crate_python.Json

module _ {S A B : Type 0} where
  continue-map : (r : Result A) (g : A → B) (s : S) → (continue r (λ a. pure (g a)) s).1 ≡ s
  unfolding pure
  continue-map (ok a) g s = refl
  continue-map (err e) g s = refl
  continue-map out_of_fuel g s = refl

  bind-map : (m : Exec S A) (g : A → B) (s : S) → ((m >>= λ a. pure (g a)) s).1 ≡ (m s).1
  unfolding ◌>>=◌
  bind-map m g s = continue-map (m s).0 g (m s).1

module _ (lib : Json.Library) (env : Env) (cfg : Config) (fuel : ℕ) (sha1 : Text → Text) where
  put-given :
      (name digest : Text) (f : File) (c : Client)
      → digest ≢ []
      → (put lib env cfg fuel sha1 name f (some digest) c).1
        ≡ (blob_put lib env cfg fuel name digest (sent_body f) c).1
  unfolding put
  put-given name [] f c h = absurd (h refl)
  put-given name (x ∷ digest) f c h =
      bind-map (blob_put lib env cfg fuel name (x ∷ digest) (sent_body f)) created c

  put-computed :
      (name : Text) (f : File) (c : Client)
      → (put lib env cfg fuel sha1 name f none c).1
        ≡ (blob_put lib env cfg fuel name
            (sha1 f.body.content)
            (sent_body (record f { position = 0 }))
            c).1
  unfolding put compute_digest
  put-computed name f c =
      bind-map
        (blob_put lib env cfg fuel name (sha1 f.body.content)
          (sent_body (record f { position = 0 })))
        (λ answer. digest_of (sha1 f.body.content)) c

-- An upload without a digest sends what the upload of the file from its start, with the SHA-1 digest
-- of all its bytes given, sends, wherever the file stood, and leaves the client the same.
pub put-rewinds :
    (lib : Json.Library) (env : Env) (cfg : Config) (fuel : ℕ) (sha1 : Text → Text) (name : Text)
    (f : File) (c : Client)
    → sha1 f.body.content ≢ []
    → (put lib env cfg fuel sha1 name f none c).1
      ≡ (put lib env cfg fuel sha1 name
          (record f { position = 0 })
          (some (sha1 f.body.content))
          c).1
put-rewinds lib env cfg fuel sha1 name f c h =
    put-computed lib env cfg fuel sha1 name f c
    ∙ sym
        (put-given lib env cfg fuel sha1 name (sha1 f.body.content) (record f { position = 0 }) c h)
