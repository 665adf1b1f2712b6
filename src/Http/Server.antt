-- ===== src/Http/Server.antt =====
-- client/http.py, class `Server` and the functions around it: the keyword arguments of a server's
-- connection pool, its socket options, and the headers of a request.
use crate_python.Prelude.{
  ℕ, Bool, false, not, ◌&&◌, Option, none, some, List, [], ◌∷◌, ◌++◌, Text, str, lower, starts_with,
  if◌then◌else◌,
}
use crate_python.Prelude.Dict.{Dict, lookup, insert, erase, has_key}
use crate_python.Exceptions.{builtin_error, os_error}
use crate_python.Exec.{Result, ok, err}
use crate_python.Http.Value.{Value, null, flag, int, text, truthy, is_not_none}
use crate_python.Http.SuperLen.{Body, super_len}
use crate_python.Http.Base64.{utf8, b64encode}

-- `ca_cert or os.environ.get('REQUESTS_CA_BUNDLE', None)`; `environ` is that variable.
abbrev or_environ : Option Text → Option Text → Option Text
or_environ none environ = environ
or_environ (some []) environ = environ
or_environ (some (x ∷ xs)) environ = some (x ∷ xs)

abbrev of_text : Option Text → Value
of_text none = null
of_text (some t) = text t

-- A certificate that is named, so not empty, has to be there.
abbrev missing_file : (Text → Bool) → Option Text → Bool
missing_file path_exists none = false
missing_file path_exists (some []) = false
missing_file path_exists (some (x ∷ xs)) = not (path_exists (x ∷ xs))

-- `ssl.CERT_REQUIRED` and `ssl.CERT_NONE`
abbrev cert_required : Value
cert_required = int 2

abbrev cert_none : Value
cert_none = int 0

abbrev with_maxsize : Option ℕ → Dict Value → Dict Value
with_maxsize none kw = kw
with_maxsize (some n) kw = insert (str "maxsize") (int n) kw

-- `path_exists` is the file system, as `os.path.exists` reads it.
unfoldable pub pool_kw_args :
    (Text → Bool)
    → Option Text
    → Bool
    → Option Text
    → Option Text
    → Option Text
    → Value
    → Option ℕ
    → Result (Dict Value)
pool_kw_args path_exists environ verify_ssl_cert ca_cert client_cert client_key timeout pool_size =
    let ca = or_environ ca_cert environ in
    if missing_file path_exists ca
    then err (builtin_error os_error (str "CA bundle file does not exist."))
    else ok (
        with_maxsize pool_size (
          (str "ca_certs", of_text ca)
          ∷ (str "cert_reqs", if verify_ssl_cert then cert_required else cert_none)
          ∷ (str "cert_file", of_text client_cert)
          ∷ (str "key_file", of_text client_key)
          ∷ (str "timeout", timeout)
          ∷ []))

-- The loop over `SSL_ONLY_ARGS & set(kwargs.keys())`; popping a key that is absent does nothing.
unfoldable pub remove_certs_for_non_https : Text → Dict Value → Dict Value
remove_certs_for_non_https server kwargs =
    if starts_with (lower server) (str "https")
    then kwargs
    else erase (str "ca_certs")
        (erase (str "cert_reqs") (erase (str "cert_file") (erase (str "key_file") kwargs)))

pub data Level : Type 0 where
  sol_socket ipproto_tcp : Level

pub data OptionName : Type 0 where
  so_keepalive tcp_keepidle tcp_keepintvl tcp_keepcnt : OptionName
  other_option : ℕ → OptionName

pub record SocketOption : Type 0 where
  pub level : Level
  pub name : OptionName
  pub value : Value

-- What the platform's `socket` module has, and urllib3's `HTTPConnection.default_socket_options`.
pub record Platform : Type 0 where
  pub has_keepidle : Bool
  pub has_keepintvl : Bool
  pub has_keepcnt : Bool
  pub default_socket_options : List SocketOption

abbrev optional_option : Bool → OptionName → Value → List SocketOption
optional_option has name v =
    if has && is_not_none v then record { level = ipproto_tcp; name = name; value = v } ∷ [] else []

unfoldable pub get_socket_opts :
    Platform → Value → Value → Value → Value → Option (List SocketOption)
get_socket_opts p keepalive keepidle keepintvl keepcnt =
    if not (truthy keepalive)
    then none
    else some (
        p.default_socket_options
        ++ (record { level = sol_socket; name = so_keepalive; value = int 1 }
            ∷ (optional_option p.has_keepidle tcp_keepidle keepidle
                ++ (optional_option p.has_keepintvl tcp_keepintvl keepintvl
                    ++ optional_option p.has_keepcnt tcp_keepcnt keepcnt))))

-- A `Server`: the URL, socket options and other keywords that its urllib3 pool is made of.
pub record Server : Type 0 where
  pub url : Text
  pub socket_options : Option (List SocketOption)
  pub pool_kw : Dict Value

abbrev get_value : Text → Value → Dict Value → Value
get_value k default kw = elim (lookup k kw) [ none ↦ default | some v ↦ v ]

-- `Server.__init__`: the socket settings are popped off the keywords.
unfoldable pub make_server : Platform → Text → Dict Value → Server
make_server p server kw = record {
  url = server;
  socket_options =
      get_socket_opts p (get_value (str "socket_keepalive") (flag false) kw)
        (get_value (str "socket_tcp_keepidle") null kw)
        (get_value (str "socket_tcp_keepintvl") null kw)
        (get_value (str "socket_tcp_keepcnt") null kw);
  pool_kw = erase (str "socket_tcp_keepcnt") (
      erase (str "socket_tcp_keepintvl")
        (erase (str "socket_tcp_keepidle") (erase (str "socket_keepalive") kw)));
}

-- `if k not in headers: headers[k] = v`
abbrev set_default : Text → Value → Dict Value → Dict Value
set_default k v headers = if has_key k headers then headers else insert k v headers

abbrev add_length : Option ℕ → Dict Value → Dict Value
add_length none headers = headers
add_length (some n) headers = set_default (str "Content-Length") (int n) headers

abbrev credentials : Text → Option Text → Text
credentials username none = username ++ str ":"
credentials username (some password) = username ++ (str ":" ++ password)

abbrev add_user : Option Text → Option Text → Dict Value → Dict Value
add_user none password headers = headers
add_user (some username) password headers = set_default (str "X-User") (text username) (
    set_default (str "Authorization")
      (text (str "Basic " ++ b64encode (utf8 (credentials username password)))) headers)

abbrev add_schema : Option Text → Dict Value → Dict Value
add_schema none headers = headers
add_schema (some schema) headers = insert (str "Default-Schema") (text schema) headers

-- The headers that `Server.request` sends, from those it is given.
unfoldable pub request_headers :
    Dict Value → Body → Option Text → Option Text → Option Text → Dict Value
request_headers headers body username password schema =
    insert (str "Content-Type") (text (str "application/json")) (
      insert (str "Accept") (text (str "application/json"))
        (add_schema schema (add_user username password (add_length (super_len body) headers))))

-- What reaches urllib3's `urlopen`. Redirects are off, and reads are not retried (`read=0`).
pub record HttpCall : Type 0 where
  pub method : Text
  pub path : Text
  pub body : Body
  pub headers : Dict Value
  pub preload_content : Bool
  pub redirect : Bool
  pub read_retries : ℕ
  pub backoff_factor : ℕ

unfoldable pub server_request :
    Text → Text → Body → Bool → Option Text → Option Text → Option Text → ℕ → HttpCall
server_request method path body stream username password schema backoff = record {
  method = method;
  path = path;
  body = body;
  headers = request_headers [] body username password schema;
  preload_content = not stream;
  redirect = false;
  read_retries = 0;
  backoff_factor = backoff;
}
