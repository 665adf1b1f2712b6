-- ===== src/Lib.antt =====
-- The Python client of CrateDB: its DB-API driver and its SQLAlchemy dialect. The driver keeps a
-- pool of servers, sends each statement to one of them over HTTP, and gives the rows of the answer
-- by cursors. The dialect has column types that know how their values were changed, and turns
-- these changes into partial updates.
--
-- The parts, by file (the code's paths are under src/crate/):
-- - Prelude: texts as lists of code points, dictionaries in insertion order, integers.
-- - Exec: methods that change an object and may raise. A result is a value, an exception, or
--   `out_of_fuel`, and the state comes back beside each of them. Exec/Keeps and Exec/Ends have the
--   rules for invariants and for how a method ends.
-- - Exceptions (client/exceptions.py): the classes, with the builtin ones that the code catches.
-- - Json: the values of Python's `json`.
-- - Http/Value, Http/SuperLen, Http/Base64, Http/Server (client/http.py, `Server` and the functions
--   on the settings of a pool): what is asked of urllib3.
-- - Http/Url (`_server_url`, `_to_server_list`), Http/Payload (`_create_sql_payload`,
--   `CrateJsonEncoder`), Http/Responses (`_raise_for_status`, `_json_from_response`).
-- - Http/Client (client/http.py, `Client`): the active servers in the order of their turns
--   (`_active_servers`), the failed ones (`_inactive_servers`) and the connection pools
--   (`server_pool`); `_get_server`, `_drop_server`, `_roundrobin`, `_add_server`. `reads` counts the
--   readings of the clock, and `sent` has what was sent.
-- - Http/Request (`Client._request`): a round picks a server, sends, and returns, raises, follows a
--   redirect or drops the server and goes on.
--   Http/Request/Failover is about requests of which some server answers, Http/Request/Given about
--   those at a given server.
-- - Http/Client/Bags: the pool without the order of the servers, as a quotient.
-- - Http/Methods (`sql`, `server_infos`, the blob methods, `__init__`, `close`); Http/Methods/Answered
--   is about each method in turn.
-- - Cursor (client/cursor.py): the result and the rows that are left. What the cursor asks of the
--   client is a parameter, `sql`.
-- - Driver: a cursor on the client, and Driver/Connected from `Client.__init__` to the rows. `SqlClient`
--   is what a cursor asks of a client, with the law that it keeps; `http_client` fills it by `Client.sql`.
--   Driver/Closed is about calls after the cursor was closed.
--   An answer that is not a JSON object is refused there; the code goes on to look for "rows" in it.
-- - Version and Connection (client/connection.py), Blob (client/blob.py).
-- - Sqlalchemy/Types and Sqlalchemy/Lists (client/sqlalchemy/types.py, `MutableDict` and
--   `MutableList`), Sqlalchemy/Compiler
--   (client/sqlalchemy/compiler.py, `rewrite_update`), Sqlalchemy/Predicates
--   (client/sqlalchemy/predicates/__init__.py).
-- - Http/Client/Threads: several threads on one client. Each operation on the pool holds the lock, so
--   the threads interleave at whole operations.
-- - Sqlalchemy/Calendar, Sqlalchemy/Strptime, Sqlalchemy/Times (client/sqlalchemy/dialect.py, `Date`
--   and `DateTime`), with what they use of Python's `datetime`; Sqlalchemy/Dialect (`CrateDialect`).
-- - Sqlalchemy/Ddl (`CrateTypeCompiler`, `CrateDDLCompiler`) and Sqlalchemy/Statements
--   (`visit_insert`, `visit_update`), both of client/sqlalchemy/compiler.py: what SQLAlchemy compiles
--   comes as texts. Sqlalchemy/Crud (`crate_before_execute`, `_get_crud_params`), of which SQLAlchemy's
--   module `crud` is a parameter.
-- - Sqlalchemy/Columns (client/sqlalchemy/types.py, the column types and the items of their columns).
-- - Testing/Address, Testing/Settings and Testing/Layer (testing/layer.py): `http_url_from_host_port`,
--   the command of `CrateLayer.__init__`, and `start`, `stop` and the loops that wait.
--   Testing/Monitor (`OutputMonitor`, `LineBuffer`) and Testing/Download (`from_uri`): a line goes to all
--   buffers in one go, and the files are a parameter.
-- - Tests: runs at concrete data.
--
-- Fuel: `request` takes one unit for each round and each redirect; with a unit
-- for each server it ends, where no server redirects or resets and no failed server becomes due. `fetchall`
-- takes one unit for each row and one for the end. The loops of the test layer take one unit for each
-- round: 152 are enough for 30 seconds of sleeps of 0.2 seconds each.
--
-- Parameters: urllib3 (`urlopen`, from what was sent before to an answer or an exception), the clock
-- in microseconds, `json.loads`, `json.dumps`, `str` of a JSON value, SHA-1, `os.path.exists`, the
-- environment. `heapq` is a list in the order in which it gives its elements.
--
-- A request's body is read alike at each attempt.
--
-- Parameters of the dialect and the layer: the rows that the server answers (`execute`), the text of a
-- bound parameter (`bind`), and the machine that the layer meets (`Machine`: clock, what `readline`
-- meets, process, HTTP, and the pattern `HTTP_ADDRESS_RE`).
--
-- Bodies of answers are UTF-8, and a server has a URL with a host: of another, which a redirect can
-- name, urllib3's `connection_from_url` raises. Parameter sets come as SQLAlchemy's ORM passes them, a
-- list of dictionaries. A cursor that executes many statements has a connection whose lowest version
-- is not empty.
--
-- Not modelled: logging, fractions in JSON, texts beyond what `re` and `urlparse`
-- treat alike (characters that a newer `urlparse` strips, and letters that fold their case to ASCII),
-- what SQLAlchemy compiles itself, slices of a `MutableList`, what `geojson` makes of a
-- `Geoshape`, a dictionary that stands at two places of a `MutableDict` or is stored again at another,
-- changes of lists inside it, the methods of `dict` and `list` that `MutableDict` and `MutableList`
-- inherit (`pop`, `update`, `clear`, `setdefault`, `sort`, `reverse` and the like) and that report no
-- change, an iterable given to `extend` that raises midway, and the build (`bootstrap.py` is a copy of
-- zc.buildout's).
mod Prelude
pub mod Exceptions
pub mod Exec
pub mod Json
pub mod Http
pub mod Cursor
pub mod Driver
pub mod Version
pub mod Connection
mod Tests
pub mod Blob
pub mod Sqlalchemy
pub mod Testing
