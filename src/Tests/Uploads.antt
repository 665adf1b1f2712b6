-- ===== src/Tests/Uploads.antt =====
-- An upload of a file that stands at its end.
use crate_python.Blob.Put.{put-rewinds}
use crate_python.Http.SuperLen.{text_body}
use crate_python.Blob.{File, put}
use crate_python.Prelude.{none, some, [], Text, ◌∷◌, str, ◌≡◌, arith}
use crate_python.Json
use crate_python.Tests.Requests.{down_env, plain_config, one_server}

abbrev no_library : Json.Library
no_library = record { loads = λ t. none; dumps = λ v. []; show = λ v. [] }

abbrev read_file : File
read_file = record { body = text_body (str "bytes"); position = 5 }

-- A digest of one digit.
abbrev short_digest : Text → Text
short_digest t = b'7' ∷ []

put-rewinds_example :
    (put no_library down_env plain_config 2 short_digest (str "blobs") read_file none one_server).1
    ≡ (put no_library down_env plain_config 2 short_digest
        (str "blobs")
        (record read_file { position = 0 })
        (some (b'7' ∷ []))
        one_server).1
put-rewinds_example =
    put-rewinds no_library down_env plain_config 2 short_digest (str "blobs") read_file one_server
      (λ e. ground (arith, e))
