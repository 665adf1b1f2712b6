-- ===== src/Tests/Versions.antt =====
-- The versions of the servers.
use crate_python.Exceptions.{builtin_error, attribute_error}
use crate_python.Http.Responses.{raise_for_status, error_message, json_from_response}
use crate_python.Prelude.Dict.{lookup}
use crate_python.Http.Request.{request, redirect_target}
use crate_python.Json.{field, end}
use crate_python.Json
use crate_python.Version.{version, Version, parse_version}
use crate_python.Exec.{ok, ◌>>=◌, err}
use crate_python.Http.Methods.{server_infos}
use crate_python.Connection.{Parsed, lower_version, version_of, version_at, lowest_server_version}
use crate_python.Connection.Lowest.{Reports, IsLowest, lowest_server_version_lem}
use crate_python.Http.Client.{Env, Client}
use crate_python.Http.Value.{Response, answered}
use crate_python.Prelude.{refl, none, [], str, ◌≡◌, ◌∷◌, some, text_eq}
use crate_python.Tests.Requests.{plain_config, one_server, platform}

abbrev root_page : Response
root_page = record {
  status = 200;
  reason = str "OK";
  content_type = none;
  redirect_location = none;
  data_bytes = str "page";
}

abbrev up_env : Env
up_env = record {
  time = λ k. 100;
  urlopen = λ sent server call. answered root_page;
  platform = platform;
}

-- Every text is the page of a server with version 2.3.
abbrev page_library : Json.Library
page_library = record {
  loads = λ t. some (
      Json.obj
        (field (str "version") (Json.obj (field (str "number") (Json.text (str "2.3")) end)) end));
  dumps = λ v. [];
  show = λ v. [];
}

abbrev asked : Client
asked = (version_at page_library up_env plain_config 2 (str "http://a:4200") one_server).1

reports_test :
    Reports page_library up_env plain_config 2 one_server.active one_server
      (version 2 3 0 ∷ [])
      asked
unfolding version_at server_infos ◌>>=◌ request str lookup text_eq redirect_target raise_for_status
    error_message json_from_response Json.get Json.truthy parse_version
reports_test = Reports.reported refl (Reports.done _)

blank_test :
    (lower_version (some (Parsed.known (version 2 3 0))) Parsed.blank
      ≡ err (builtin_error attribute_error (str "version")))
    × (version_of (Json.text []) ≡ ok Parsed.blank)
unfolding lower_version Json.truthy
blank_test = (refl, refl)

lowest_server_version_lem_example :
    (m : Version) × (lowest_server_version page_library up_env plain_config 2 one_server
      ≡ (ok (Parsed.known m), asked))
    × IsLowest m (version 2 3 0 ∷ [])
lowest_server_version_lem_example =
    lowest_server_version_lem page_library up_env plain_config 2 (version 2 3 0) [] one_server asked
      reports_test
