-- ===== src/Http/Responses.antt =====
-- client/http.py: what the methods of `Client` make of a response. `_raise_for_status`,
-- `_json_from_response`, `_json_request`, `sql`, `server_infos` and the blob methods.
pub mod Laws
use crate_python.Prelude.{
  ℕ, Bool, false, ◌&&◌, Option, none, some, List, [], ◌∷◌, ◌++◌, Text, str, starts_with, join,
  length, ltb, leb, ◌==◌, if◌then◌else◌, ◌+◌, ◌/◌, ◌%◌,
}
use crate_python.Exceptions.{
  Exn, attribute_error, type_error, value_error, builtin_error, connection_error_of,
  programming_error_of,
}
use crate_python.Exec.{Result, ok, err, out_of_fuel, on_ok}
use crate_python.Json
use crate_python.Json.{Json, Items, Fields, nil, cons, end, field, truthy}
use crate_python.Http.Value.{Response}

-- Decimal digits of a status.
status_text : ℕ → Text
status_text n = (b'0' + n / 100) ∷ (b'0' + n / 10 % 10) ∷ (b'0' + n % 10) ∷ []

abbrev status_message : ℕ → Text → Text → Text
status_message status kind reason = status_text status ++ (kind ++ reason)

-- The message for a status that is an error.
unfoldable pub error_message : Response → Option Text
unfolding status_text
error_message resp =
    if leb 400 resp.status && ltb resp.status 500
    then some (status_message resp.status (str " Client Error: ") resp.reason)
    else if leb 500 resp.status && ltb resp.status 600
    then some (status_message resp.status (str " Server Error: ") resp.reason)
    else none

abbrev not_a_dict : Exn
not_a_dict = builtin_error attribute_error (str "object has no attribute 'get'")

abbrev keep_truthy : Option Json → List Json → List Json
keep_truthy none rest = rest
keep_truthy (some v) rest = if truthy v then v ∷ rest else rest

-- `[res["error_message"] for res in results if res.get("error_message")]`
unfoldable pub messages : Items → Result (List Json)
messages nil = ok []
messages (cons (Json.obj fs) rest) =
    on_ok (messages rest) (λ ms. ok (keep_truthy (Json.get (str "error_message") fs) ms))
messages (cons _ rest) = err not_a_dict

result_messages : Json → Result (List Json)
result_messages (Json.arr xs) = messages xs
result_messages (Json.obj end) = ok []
result_messages (Json.obj (field k v fs)) = err not_a_dict
result_messages (Json.text []) = ok []
result_messages (Json.text (c ∷ s)) = err not_a_dict
result_messages _ = err (builtin_error type_error (str "object is not iterable"))

-- `"\n".join(errors)` takes texts only.
texts : List Json → Result (List Text)
texts [] = ok []
texts (Json.text t ∷ rest) = on_ok (texts rest) (λ ts. ok (t ∷ ts))
texts (_ ∷ rest) = err (builtin_error type_error (str "expected str instance"))

abbrev found_messages : Option Json → Result (List Json)
found_messages none = ok []
found_messages (some results) = result_messages results

-- `response.data` if it is empty, else its JSON
abbrev pub Content : Type 0
Content = Option Json

module _ (lib : Json.Library) where
  -- An exception's argument as a text.
  shown : Json → Text
  shown (Json.text t) = t
  shown v = lib.show v

  trace_of : Option Json → Option Text
  trace_of none = none
  trace_of (some Json.null) = none
  trace_of (some v) = some (shown v)

  error_of : Json → Option Text → Exn
  error_of (Json.obj fs) trace =
      programming_error_of (shown (Json.get_or (str "message") (Json.text []) fs)) trace
  error_of error trace = programming_error_of (shown error) trace

  abbrev raise_messages : Fields → List Json → Exn
  raise_messages data_ [] =
      error_of (Json.get_or (str "error") (Json.obj end) data_)
        (trace_of (Json.get (str "error_trace") data_))
  raise_messages data_ (m ∷ ms) = elim (texts (m ∷ ms)) [
    | ok ts ↦ programming_error_of (join (10 ∷ []) ts) none
    | err e ↦ e
    | out_of_fuel ↦ not_a_dict
  ]

  -- The exception for an error's JSON body.
  unfoldable pub body_error : Option Json → Exn
  unfolding messages result_messages texts error_of trace_of shown
  body_error none = builtin_error value_error (str "Expecting value")
  body_error (some (Json.obj data_)) = elim (found_messages (Json.get (str "results") data_)) [
    | ok ms ↦ raise_messages data_ ms
    | err e ↦ e
    | out_of_fuel ↦ not_a_dict
  ]
  body_error (some _) = not_a_dict

  abbrev pub is_json : Option Text → Bool
  is_json none = false
  is_json (some content_type) = starts_with content_type (str "application/json")

  unfoldable pub raise_for_status : Response → Result (Unit {0})
  raise_for_status resp = elim (error_message resp) [
    | none ↦ ok tt
    | some message ↦
        if resp.status == 503
        then err (connection_error_of message)
        else if is_json resp.content_type
        then err (body_error (lib.loads resp.data_bytes))
        else err (programming_error_of message none)
  ]

  abbrev or_unknown : Option Text → Text
  or_unknown none = str "unknown"
  or_unknown (some t) = t

  -- `_json_from_response`, of bytes that are UTF-8. Of others it raises UnicodeDecodeError, since the
  -- message of its exception decodes them again.
  unfoldable pub json_from_response : Response → Result Json
  json_from_response resp = elim (lib.loads resp.data_bytes) [
    | some v ↦ ok v
    | none ↦ err (
        programming_error_of
          (str "Invalid server response of content-type '"
            ++ (or_unknown resp.content_type ++ (str "':\n" ++ resp.data_bytes)))
          none)
  ]

  unfoldable pub content_of : Response → Result Content
  unfolding raise_for_status json_from_response
  content_of resp = on_ok (raise_for_status resp) λ _.
      if ltb 0 (length resp.data_bytes)
      then on_ok (json_from_response resp) (λ v. ok (some v))
      else ok none
