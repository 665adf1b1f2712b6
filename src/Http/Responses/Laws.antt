-- ===== src/Http/Responses/Laws.antt =====
-- When `_raise_for_status` raises, and what.
use crate_python.Exec.{ok, err}
use crate_python.Exceptions.{
  connection_error_of, make_error, Exn, connection_error, builtin_error, issubclass,
  programming_error_of, value_error, error,
}
use crate_python.Http.Value.{Response}
use crate_python.Http.Responses.{
  raise_for_status, error_message, status_message, body_error, is_json,
}
use crate_python.Prelude.{
  refl, ◌≡◌, ◌↔◌, ◌<◌, ◌⊎◌, ◌≤◌, arith, none, true, false, inl, inr, ◌≢◌, str, Text, Bool-cases,
  ltb,
}
use crate_python.Json
use crate_python.Json.{Json, Fields}

-- `_raise_for_status` passes a response exactly if its status is below 400 or at least 600.
pub raise_for_status-ok :
    (lib : Json.Library) (resp : Response)
    → (raise_for_status lib resp ≡ ok tt) ↔ ((resp.status < 400) ⊎ (600 ≤ resp.status))
unfolding raise_for_status error_message
raise_for_status-ok lib resp = (λ h. ground arith, λ h. ground arith)

-- For a status 503 it raises a `ConnectionError`, whatever the body.
pub raise_for_status-unavailable :
    (lib : Json.Library) (resp : Response)
    → resp.status ≡ 503
    → (e : Exn) × (raise_for_status lib resp ≡ err e) × (e.cls ≡ connection_error)
unfolding raise_for_status error_message connection_error_of make_error
raise_for_status-unavailable lib resp h = (
  connection_error_of (status_message resp.status (str " Server Error: ") resp.reason),
  ground arith,
  refl,
)

-- Any other error status whose body is no JSON, by its content type, raises a `ProgrammingError`.
pub raise_for_status-plain :
    (lib : Json.Library) (resp : Response)
    → 400 ≤ resp.status
    → resp.status < 600
    → resp.status ≢ 503
    → is_json lib resp.content_type ≡ false
    → (message : Text) × (raise_for_status lib resp ≡ err (programming_error_of message none))
unfolding raise_for_status error_message
raise_for_status-plain lib resp low high other plain = elim (Bool-cases (ltb resp.status 500)) [
  | inl c ↦ (status_message resp.status (str " Client Error: ") resp.reason, ground arith)
  | inr c ↦ (status_message resp.status (str " Server Error: ") resp.reason, ground arith)
]

-- An error status other than 503 whose content type is JSON, but whose body is none, raises the
-- `ValueError` of `json.loads`, which is no exception of the DB-API.
pub raise_for_status-invalid_json :
    (lib : Json.Library) (resp : Response)
    → 400 ≤ resp.status
    → resp.status < 600
    → resp.status ≢ 503
    → is_json lib resp.content_type ≡ true
    → lib.loads resp.data_bytes ≡ none
    → (e : Exn) × (raise_for_status lib resp ≡ err e)
      × (e.cls ≡ value_error)
      × (issubclass e.cls error ≡ false)
unfolding raise_for_status error_message body_error builtin_error issubclass
raise_for_status-invalid_json lib resp low high other json invalid =
    (builtin_error value_error (str "Expecting value"), ground arith, refl, refl)
