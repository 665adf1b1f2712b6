-- ===== src/Connection.antt =====
-- client/connection.py: a connection knows the lowest version of its servers, hands out cursors and
-- refuses work once it is closed.
use crate_python.Http.Methods.{server_infos}
use crate_python.Cursor.{Cursor, new_cursor}
use crate_python.Version.{Version, version_lt, parse_version, version}
use crate_python.Http.Client.{Env, Client, Config, active_servers}
use crate_python.Exceptions.{
  Exn, issubclass, value_error, programming_error_of, connection_error, builtin_error, type_error,
  attribute_error,
}
pub mod Lowest
pub mod Valid
pub mod Asked
use crate_python.Prelude.{
  none, some, true, false, [], Bool, Option, if◌then◌else◌, ℕ, ◌||◌, Text, List, str, ◌∷◌,
}
use crate_python.Exec.{
  ◌>>=◌, Result, Exec, modify, raise, ok, gets, err, try_except, pure, lift, ◌>>◌, on_ok,
}
use crate_python.Json
use crate_python.Json.{Json}

-- A `StrictVersion` that was made of a value. Of an empty one it has no parts.
pub data Parsed : Type 0 where
  known : Version → Parsed
  blank : Parsed

-- A connection with its client.
pub record Connection : Type 0 where
  pub closed : Bool
  pub client : Client
  pub lowest_server_version : Parsed

-- `if not lowest or version < lowest: lowest = version`. To compare an empty version raises
-- AttributeError, in which the loop ends.
unfoldable pub lower_version : Option Parsed → Parsed → Result Parsed
lower_version none v = ok v
lower_version (some (known l)) (known v) = ok (known (if version_lt v l then v else l))
lower_version (some (known l)) blank = err (builtin_error attribute_error (str "version"))
lower_version (some blank) v = err (builtin_error attribute_error (str "version"))

unfoldable pub lower_by : Option Parsed → Option Parsed → Result (Option Parsed)
lower_by lowest none = ok lowest
lower_by lowest (some v) = on_ok (lower_version lowest v) (λ l. ok (some l))

abbrev or_zero : Option Parsed → Parsed
or_zero none = known (version 0 0 0)
or_zero (some v) = v

-- `StrictVersion(text)`
abbrev version_of_text : Text → Result Parsed
version_of_text t = elim (parse_version t) [
  | some v ↦ ok (known v)
  | none ↦ err (builtin_error value_error (str "invalid version number"))
]

abbrev version_of_value : Json → Result Parsed
version_of_value (Json.text t) = version_of_text t
version_of_value _ = err (builtin_error type_error (str "expected string"))

-- `StrictVersion(version)`, of a JSON value: `if vstring: self.parse(vstring)`
abbrev pub version_of : Json → Result Parsed
version_of v = if Json.truthy v then version_of_value v else ok blank

abbrev is_skipped : Exn → Bool
is_skipped e = issubclass e.cls value_error || issubclass e.cls connection_error

module _ (lib : Json.Library) (env : Env) (cfg : Config) (fuel : ℕ) where
  -- The body of the loop: the version of a server, or `none` to go on with the next.
  unfoldable pub version_at : Text → Exec Client (Option Parsed)
  version_at server =
      try_except
        (do
          info ← server_infos lib env cfg fuel server
          v ← lift (version_of info.2)
          pure (some v))
        (λ e. if is_skipped e then pure none else raise e)

  unfoldable pub lowest_loop : List Text → Option Parsed → Exec Client (Option Parsed)
  lowest_loop [] lowest = pure lowest
  lowest_loop (server ∷ rest) lowest = do
    v ← version_at server
    lower ← lift (lower_by lowest v)
    lowest_loop rest lower

  -- `_lowest_server_version`
  unfoldable pub lowest_server_version : Exec Client Parsed
  unfolding lowest_loop version_at lower_version ◌>>=◌
  lowest_server_version = do
    servers ← gets active_servers
    lowest ← lowest_loop servers none
    pure (or_zero lowest)

  -- `Connection.__init__`, with the client that was given or made
  unfoldable pub connect : Client → Result Connection × Client
  connect client =
      (do
        v ← lowest_server_version
        c ← gets (λ c. c)
        pure (record { closed = false; client = c; lowest_server_version = v }))
        client

-- The methods, on the connection.
unfoldable pub cursor : Exec Connection Cursor
cursor s =
    if s.closed
    then raise (programming_error_of (str "Connection closed") none) s
    else pure new_cursor s

unfoldable pub commit : Exec Connection (Unit {0})
commit s =
    if s.closed then raise (programming_error_of (str "Connection closed") none) s else pure tt s

-- The client's `close` closes the pools of urllib3, of which the model keeps no state.
unfoldable pub close : Exec Connection (Unit {0})
close = modify (λ s. record s { closed = true })

-- `with connection:`: `__enter__` gives the connection itself, and `__exit__` closes it, also when the
-- body raised; the exception goes on.
unfoldable pub with_connection : {A : Type 0} → Exec Connection A → Exec Connection A
unfolding close
with_connection body = do value ← try_except body (λ e. do close; raise e); close; pure value
