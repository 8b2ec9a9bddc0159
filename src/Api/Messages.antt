-- ===== src/Api/Messages.antt =====
-- What a failed request says.
use justprojects.Base.{
  ℕ, String, ◌≡◌, refl, ap, Bool, true, false, Option, none, some, arith, eq_iff, ◌==◌, nat_eq,
  Bool-cases, inl, inr, if◌then◌else◌,
}
use Prim.Native.String.{◌++◌}
use Prim.Native.String.append
use justprojects.Answers.{api_error, error, thrown_value, Ended, answered, failed}
use justprojects.PublicStatus.Events.{HasMessage}
use justprojects.Api.{Response, status_message, error_message, some_ended, request}

abbrev is_blank : String → Bool
is_blank String.[] = true
is_blank (String.◌∷◌ c s) = false

unblank : (s : String) → is_blank s ≡ false → (s == "") ≡ false
unblank s h = elim (Bool-cases (s == "")) [
  | inl e ↦ absurd (ground (arith, h, ap is_blank ((eq_iff s "").0 e)))
  | inr e ↦ e
]

append-unblank : (s t : String) → is_blank s ≡ false → is_blank (s ++ t) ≡ false
append-unblank String.[] t h = cc
append-unblank (String.◌∷◌ c s) t h = ap is_blank (append.cons c s t)

status_message-some : (status : ℕ) → (status_message status == "") ≡ false
status_message-some status =
    unblank (status_message status) (append-unblank "Request failed (" _ refl)

error_message-some :
    (status : ℕ) (json : Ended (Option String)) → (error_message status json == "") ≡ false
error_message-some status (answered none) = status_message-some status
error_message-some status (answered (some text)) = elim (Bool-cases (text == "")) [
  | inl e ↦ rw e (status_message-some status)
  | inr e ↦ rw e e
]
error_message-some status (failed c) = status_message-some status

if-HasMessage {ℓ} :
    {A : Type ℓ} (test : Bool) (x y : Ended A)
    → HasMessage x
    → HasMessage y
    → HasMessage (if test then x else y)
if-HasMessage true x y h g = h
if-HasMessage false x y h g = g

module _ {ℓ} {A : Type ℓ} where
  some_ended-HasMessage : (o : Ended A) → HasMessage o → HasMessage (some_ended o)
  some_ended-HasMessage (answered a) m = tt
  some_ended-HasMessage (failed (api_error message status)) m = m
  some_ended-HasMessage (failed (error message)) m = m
  some_ended-HasMessage (failed thrown_value) m = tt

  -- If what `fetch` and `json` throw has a message, so has every failure of a request: the runs of
  -- PublicStatus ask for no more.
  pub request-HasMessage :
      (configured : Bool) (fetched : Ended (Response A))
      → HasMessage fetched
      → ((r : Response A) → fetched ≡ answered r → HasMessage r.json)
      → HasMessage (request configured fetched)
  unfolding request
  request-HasMessage false fetched m j = refl
  request-HasMessage true (failed (api_error message status)) m j = m
  request-HasMessage true (failed (error message)) m j = m
  request-HasMessage true (failed thrown_value) m j = tt
  request-HasMessage true (answered r) m j =
      if-HasMessage r.ok _ _
        (if-HasMessage (nat_eq r.status 204) (answered none) _ tt
          (some_ended-HasMessage r.json (j r refl)))
        (error_message-some r.status r.error_json)
