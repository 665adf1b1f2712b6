-- ===== src/Exceptions.antt =====
-- client/exceptions.py, and the other exception classes that the client raises or catches: Python's
-- own, and urllib3's (each a subclass of its `HTTPError`, as urllib3 documents).
use crate_python.Prelude.{
  ℕ, zero, suc, Bool, false, ◌||◌, Option, none, some, List, [], ◌∷◌, ◌++◌, Text, str, String, ◌==◌,
}

pub data ExcClass : Type 0 where
  exception error warning interface_error database_error internal_error operational_error
        programming_error integrity_error data_error not_supported_error connection_error
        blob_exception digest_not_found blob_location_not_found timezone_unaware :
      ExcClass
  value_error index_error key_error type_error attribute_error os_error assertion_error
        not_implemented_error stop_iteration system_error :
      ExcClass
  connection_reset_error broken_pipe_error : ExcClass
  http_error max_retry_error read_timeout_error ssl_error proxy_error protocol_error : ExcClass

-- The class that each class derives from.
unfoldable pub base : ExcClass → Option ExcClass
base exception = none
base interface_error = some error
base database_error = some error
base internal_error = some database_error
base operational_error = some database_error
base programming_error = some database_error
base integrity_error = some database_error
base data_error = some database_error
base not_supported_error = some database_error
base connection_error = some operational_error
base digest_not_found = some blob_exception
base blob_location_not_found = some blob_exception
base timezone_unaware = some error
base connection_reset_error = some os_error
base broken_pipe_error = some os_error
base max_retry_error = some http_error
base read_timeout_error = some http_error
base ssl_error = some http_error
base proxy_error = some http_error
base protocol_error = some http_error
base _ = some exception

-- A number for each class, to compare classes by.
abbrev tag : ExcClass → ℕ
tag exception = 0
tag error = 1
tag warning = 2
tag interface_error = 3
tag database_error = 4
tag internal_error = 5
tag operational_error = 6
tag programming_error = 7
tag integrity_error = 8
tag data_error = 9
tag not_supported_error = 10
tag connection_error = 11
tag blob_exception = 12
tag digest_not_found = 13
tag blob_location_not_found = 14
tag timezone_unaware = 15
tag value_error = 16
tag index_error = 17
tag key_error = 18
tag type_error = 19
tag attribute_error = 20
tag os_error = 21
tag assertion_error = 22
tag not_implemented_error = 23
tag stop_iteration = 24
tag system_error = 25
tag connection_reset_error = 26
tag broken_pipe_error = 27
tag http_error = 28
tag max_retry_error = 29
tag read_timeout_error = 30
tag ssl_error = 31
tag proxy_error = 32
tag protocol_error = 33

unfoldable pub same_class : ExcClass → ExcClass → Bool
same_class c d = tag c == tag d

-- Whether `d` is among the first `n` classes from `c` up.
climbs : ℕ → ExcClass → ExcClass → Bool
climbs zero c d = false
climbs (suc n) c d = same_class c d || elim (base c) [ none ↦ false | some b ↦ climbs n b d ]

-- `issubclass(c, d)`: no class stands more than four below `Exception`.
unfoldable pub issubclass : ExcClass → ExcClass → Bool
unfolding climbs base same_class
issubclass = climbs 5

-- An exception: its class, the classes of `ex.args`, the attribute `message` if there is one, its
-- `str`, its `repr`, and the attribute `error_trace` of the client's own classes.
pub record Exn : Type 0 where
  pub cls : ExcClass
  pub args : List ExcClass
  pub message : Option Text
  pub text : Text
  pub repr : Text
  pub error_trace : Option Text

-- `Error(msg, error_trace)`: only a message that is not empty is kept as the attribute. The `repr`
-- is written for an empty message, where alone it is read.
unfoldable pub make_error : ExcClass → String → Text → Option Text → Exn
make_error c name msg trace = record {
  cls = c;
  args = [];
  message = elim msg [ [] ↦ none | x ∷ xs ↦ some (x ∷ xs) ];
  text = msg;
  repr = str name ++ (str "('" ++ (msg ++ str "')"));
  error_trace = trace;
}

unfoldable pub connection_error_of : Text → Exn
unfolding make_error
connection_error_of msg = make_error connection_error "ConnectionError" msg none

unfoldable pub programming_error_of : Text → Option Text → Exn
unfolding make_error
programming_error_of msg trace = make_error programming_error "ProgrammingError" msg trace

-- Python's own exceptions, raised with one text.
unfoldable pub builtin_error : ExcClass → Text → Exn
builtin_error c msg = record {
  cls = c;
  args = [];
  message = none;
  text = msg;
  repr = msg;
  error_trace = none;
}

-- `BlobException.__str__`
unfoldable pub blob_error : ExcClass → Text → Text → Exn
blob_error c table digest = record {
  cls = c;
  args = [];
  message = none;
  text = table ++ (str "/" ++ digest);
  repr = table ++ (str "/" ++ digest);
  error_trace = none;
}

-- `a or b` on texts
abbrev pub or_text : Text → Text → Text
or_text [] b = b
or_text (x ∷ xs) b = x ∷ xs

abbrev or_empty : Option Text → Text
or_empty none = []
or_empty (some t) = t

-- `_ex_to_message`
unfoldable pub ex_to_message : Exn → Text
ex_to_message e = or_text (or_empty e.message) (or_text e.text e.repr)
