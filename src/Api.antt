-- ===== src/Api.antt =====
-- `request` of services/frontend/lib/api.ts, over what `fetch` answers. What is done with the path and
-- the options of a request is `fetch`'s.
pub mod Messages
mod Tests
use justprojects.Base.{
  ℕ, zero, suc, ◌+◌, ◌/◌, ◌%◌, String, Bool, true, false, not, Option, none, some, nat_eq, ltb,
  truthy, if◌then◌else◌,
}
use Prim.Native.String.{◌++◌}
use justprojects.Answers.{Cause, api_error, error, thrown_value, Ended, answered, failed}

-- A response whose JSON would be an `A`: `ok`, `status`, and what `json()` gives, for a response that is
-- not ok its `error`.
pub record Response {ℓ} (A : Type ℓ) : Type ℓ where
  pub ok : Bool
  pub status : ℕ
  pub json : Ended A
  pub error_json : Ended (Option String)

abbrev digit : ℕ → String
digit d =
    if nat_eq d 0
    then "0"
    else if nat_eq d 1
    then "1"
    else if nat_eq d 2
    then "2"
    else if nat_eq d 3
    then "3"
    else if nat_eq d 4
    then "4"
    else if nat_eq d 5
    then "5"
    else if nat_eq d 6
    then "6"
    else if nat_eq d 7
    then "7"
    else if nat_eq d 8
    then "8"
    else "9"

-- `${n}`, with fuel for each digit
abbrev number_text : ℕ → ℕ → String
number_text zero n = ""
number_text (suc fuel) n =
    let front = number_text fuel (n / 10) in if ltb n 10 then digit n else front ++ digit (n % 10)

-- `Request failed (${response.status})`
abbrev pub status_message : ℕ → String
status_message status = "Request failed (" ++ number_text (suc status) status ++ ")"

-- the message of a response that is not ok; `json()` may throw, which keeps the first message
abbrev pub error_message : ℕ → Ended (Option String) → String
error_message status (answered none) = status_message status
error_message status (answered (some text)) = if truthy text then text else status_message status
error_message status (failed c) = status_message status

abbrev pub some_ended {ℓ} : {A : Type ℓ} → Ended A → Ended (Option A)
some_ended (answered a) = answered (some a)
some_ended (failed c) = failed c

abbrev pub read_response {ℓ} : {A : Type ℓ} → Response A → Ended (Option A)
read_response r =
    if r.ok
    then (if nat_eq r.status 204 then answered none else some_ended r.json)
    else failed (api_error (error_message r.status r.error_json) r.status)

-- `request`, with `none` for undefined; `fetched` is what the await of `fetch` comes to
pub request {ℓ} : {A : Type ℓ} → (configured : Bool) → Ended (Response A) → Ended (Option A)
request false fetched = failed (api_error "The backend API is not configured." 0)
request true (failed c) = failed c
request true (answered r) = read_response r
