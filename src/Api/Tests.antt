-- ===== src/Api/Tests.antt =====
-- Requests at concrete responses.
use justprojects.Base.{ℕ, String, ◌≡◌, refl, Bool, true, false, none, some}
use justprojects.Answers.{api_error, answered, failed}
use justprojects.Api.{Response, request}

abbrev response : Bool → ℕ → Response String
response ok status = record {
  ok = ok;
  status = status;
  json = answered "body";
  error_json = answered none;
}

request_tests :
    (request true (answered (response true 200)) ≡ answered (some "body"))
    × (request true (answered (response true 204)) ≡ answered none)
    × (request true (answered (response false 503)) ≡ failed (api_error "Request failed (503)" 503))
    × (request true (answered (record (response false 401) { error_json = answered (some "no") }))
        ≡ failed (api_error "no" 401))
unfolding request
request_tests = (refl, refl, refl, refl)
