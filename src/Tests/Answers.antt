-- ===== src/Tests/Answers.antt =====
-- URLs, payloads, responses and versions.
use crate_python.Http.Url.Laws.{server_url_idem}
use crate_python.Exec.{ok}
use crate_python.Http.Value.{Response}
use crate_python.Http.Responses.{is_json}
use crate_python.Http.Payload.{
  encode, sql_payload, datetime, Param, encode_all, plain, total_microseconds, int_ms, whole_ms,
  is_rounded_up, steps_of,
}
use crate_python.Http.Base64.{b64encode, utf8}
use crate_python.Http.Url.{server_url, http_match, netloc, url_of}
use crate_python.Prelude.{
  refl, lower, none, some, true, [], ℕ, List, str, Text, Option, ◌≡◌, ◌∷◌, starts_with, ◌≢◌, arith,
}
use crate_python.Prelude.Int.{pos, ◌+ℤ◌, ◌*ℤ◌}
use crate_python.Json
use crate_python.Json.{Json, Fields}

server_url_test :
    (server_url (str "a:9345") ≡ ok (str "http://a:9345"))
    × (server_url (str "https://a/path?q") ≡ ok (str "https://a"))
    × (server_url (str "demo.crate.io") ≡ ok (str "http://demo.crate.io"))
unfolding server_url http_match str lower starts_with netloc url_of
server_url_test = (refl, refl, refl)

b64encode_test : b64encode (utf8 (str "Aladdin:OpenSesame")) ≡ str "QWxhZGRpbjpPcGVuU2VzYW1l"
unfolding b64encode utf8 str
b64encode_test = refl

a_url : server_url (str "a") ≡ ok (str "http://a")
unfolding server_url http_match str lower starts_with netloc url_of
a_url = refl

a_url_matches : http_match (str "http://a") ≢ none
unfolding http_match str lower starts_with
a_url_matches e = ground arith

server_url_idem_example : server_url (str "http://a") ≡ ok (str "http://a")
server_url_idem_example = server_url_idem (str "a") (str "http://a") a_url a_url_matches

late_test : encode (datetime (pos 230103) 0 999) ≡ ok (Json.num (pos 19880899200001))
unfolding encode total_microseconds int_ms whole_ms is_rounded_up steps_of ◌+ℤ◌ ◌*ℤ◌
late_test = refl

abbrev one_param : List Param
one_param = plain Json.null ∷ []

abbrev one_param_fields : Fields
one_param_fields =
    Json.field (str "stmt") (Json.text (str "select ?"))
      (Json.field (str "args") (Json.arr (Json.items (Json.null ∷ []))) Json.end)

payload_of_one : sql_payload (some (str "select ?")) one_param [] ≡ ok one_param_fields
unfolding sql_payload encode_all encode
payload_of_one = refl

-- A library for JSON that reads nothing.
abbrev blind : Json.Library
blind = record { loads = λ t. none; dumps = λ v. []; show = λ v. [] }

abbrev answer : ℕ → Option Text → Response
answer status content_type = record {
  status = status;
  reason = [];
  content_type = content_type;
  redirect_location = none;
  data_bytes = [];
}

abbrev json_type : Option Text
json_type = some (str "application/json")

json_type-is_json : is_json blind json_type ≡ true
unfolding str starts_with
json_type-is_json = refl
