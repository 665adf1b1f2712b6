-- ===== src/Http/Value.antt =====
-- The Python values that the client keeps in keyword dictionaries and headers, and how urllib3's
-- requests and responses look to client/http.py.
use crate_python.Prelude.{ℕ, zero, suc, Bool, true, false, Option, [], ◌∷◌, Text}
use crate_python.Exceptions.{Exn}

pub data Value : Type 0 where
  null : Value
  flag : Bool → Value
  int : ℕ → Value
  text : Text → Value

-- `bool(v)`
unfoldable pub truthy : Value → Bool
truthy null = false
truthy (flag b) = b
truthy (int zero) = false
truthy (int (suc n)) = true
truthy (text []) = false
truthy (text (x ∷ xs)) = true

abbrev pub is_not_none : Value → Bool
is_not_none null = false
is_not_none _ = true

-- A response of urllib3: `redirect_location` is what its `get_redirect_location()` returns, and
-- `data` the body's bytes.
pub record Response : Type 0 where
  pub status : ℕ
  pub reason : Text
  pub content_type : Option Text
  pub redirect_location : Option Text
  pub data_bytes : Text

-- A call of urllib3 ends in a response or raises.
pub data Reply : Type 0 where
  answered : Response → Reply
  raised : Exn → Reply
