-- ===== src/Http/SuperLen.antt =====
-- client/http.py, `super_len`: the length of a request's body by what the object offers.
use crate_python.Prelude.{ℕ, Option, none, some, [], Text, length}

-- A body object: the value of `len(o)`, of the attribute `o.len`, of the file's size behind
-- `o.fileno()` (which may raise `io.UnsupportedOperation`), and of `len(o.getvalue())`, each where
-- the object has it; and what is read from it when it is sent.
pub data Fileno : Type 0 where
  no_fileno unsupported : Fileno
  file_size : ℕ → Fileno

pub record Body : Type 0 where
  pub dunder_len : Option ℕ
  pub len_attribute : Option ℕ
  pub fileno : Fileno
  pub getvalue : Option ℕ
  pub content : Text

abbrev from_fileno : Fileno → Option ℕ → Option ℕ
from_fileno no_fileno getvalue = getvalue
from_fileno unsupported getvalue = getvalue
from_fileno (file_size n) getvalue = some n

abbrev from_attribute : Option ℕ → Option ℕ → Option ℕ
from_attribute none rest = rest
from_attribute (some n) rest = some n

unfoldable pub super_len : Body → Option ℕ
super_len o =
    from_attribute o.dunder_len (from_attribute o.len_attribute (from_fileno o.fileno o.getvalue))

-- `data=None`: an object with none of these.
abbrev pub no_body : Body
no_body = record {
  dunder_len = none;
  len_attribute = none;
  fileno = no_fileno;
  getvalue = none;
  content = [];
}

-- A `str`
abbrev pub text_body : Text → Body
text_body t = record {
  dunder_len = some (length t);
  len_attribute = none;
  fileno = no_fileno;
  getvalue = none;
  content = t;
}
