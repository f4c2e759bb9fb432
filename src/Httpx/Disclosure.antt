-- ===== src/Httpx/Disclosure.antt =====
-- What an answer tells about the error behind it.
use base_template_server_go.Base.{
  String, false, if◌then◌else◌, nat_eq, none, refl, string_eq, ℕ, ◌==◌, ◌≡◌,
}
use base_template_server_go.Errors.{
  GoError, Sentinel, bad_request, conflict, internal, is, no_rows, not_found, permission_denied,
  retryable, sentinel, sentinel_eq, text, unauthorized, validation, wrap,
}
use base_template_server_go.Httpx.{
  Asked, Library, as_api_error, as_http_error, describe, error_handler, map_error,
}

-- The errors that a domain package makes from one sentinel, by `%w` and Retryable.
pub data Wraps (s : Sentinel) : GoError → Type 0 where
  itself : Wraps s (sentinel s)
  wrapped : {e : GoError} {m : String} → Wraps s e → Wraps s (wrap e m)
  retried : {e : GoError} → Wraps s e → Wraps s (retryable e)

abbrev pub status_of : Sentinel → ℕ
status_of not_found = 404
status_of validation = 422
status_of bad_request = 400
status_of conflict = 409
status_of unauthorized = 401
status_of permission_denied = 403
status_of internal = 500
status_of no_rows = 500

is-Wraps : {s : Sentinel} {e : GoError} → Wraps s e → (t : Sentinel) → is e t ≡ sentinel_eq s t
is-Wraps itself t = refl
is-Wraps (wrapped w) t = is-Wraps w t
is-Wraps (retried w) t = is-Wraps w t

as_api_error-Wraps : {s : Sentinel} {e : GoError} → Wraps s e → as_api_error e ≡ none
as_api_error-Wraps itself = refl
as_api_error-Wraps (wrapped w) = as_api_error-Wraps w
as_api_error-Wraps (retried w) = as_api_error-Wraps w

as_http_error-Wraps : {s : Sentinel} {e : GoError} → Wraps s e → as_http_error e ≡ none
as_http_error-Wraps itself = refl
as_http_error-Wraps (wrapped w) = refl
as_http_error-Wraps (retried w) = refl

map_error-sentinel :
    (s : Sentinel) (e : GoError)
    → ((t : Sentinel) → is e t ≡ sentinel_eq s t)
    → map_error e ≡ map_error (sentinel s)
unfolding map_error
map_error-sentinel s e same =
    rw
      (
        same not_found,
        same validation,
        same bad_request,
        same conflict,
        same unauthorized,
        same permission_denied,
      )
      refl

status-sentinel : (s : Sentinel) → (map_error (sentinel s)).0 ≡ status_of s
unfolding map_error
status-sentinel not_found = refl
status-sentinel validation = refl
status-sentinel bad_request = refl
status-sentinel conflict = refl
status-sentinel unauthorized = refl
status-sentinel permission_denied = refl
status-sentinel internal = refl
status-sentinel no_rows = refl

message-sentinel :
    (s : Sentinel) (x : String)
    → (let (status, code, message) = map_error (sentinel s) in if status == 500 then message else x)
      ≡ (if status_of s == 500 then "An unexpected error occurred" else x)
unfolding map_error
message-sentinel not_found x = refl
message-sentinel validation x = refl
message-sentinel bad_request x = refl
message-sentinel conflict x = refl
message-sentinel unauthorized x = refl
message-sentinel permission_denied x = refl
message-sentinel internal x = refl
message-sentinel no_rows x = refl

-- An error that the domain packages made from a sentinel, however deep it is wrapped, is answered
-- with the sentinel's status. Its own text is the message for the six sentinels that have a status
-- below 500, and the fixed message for the others.
describe-Wraps :
    (status_text : ℕ → String) (s : Sentinel) (e : GoError)
    → Wraps s e
    → ((describe status_text e).status ≡ status_of s)
      × ((describe status_text e).message
          ≡ (if status_of s == 500 then "An unexpected error occurred" else text e))
unfolding describe
describe-Wraps status_text s e w =
    let api = as_api_error-Wraps w in
    let http = as_http_error-Wraps w in
    let mapped = map_error-sentinel s e (is-Wraps w) in
    (
      rw (api, http, mapped) (status-sentinel s),
      rw (api, http, mapped) (message-sentinel s (text e)),
    )

-- None of the six sentinels with a status of their own, no APIError and no HTTPError.
abbrev pub Unforeseen : GoError → Type 0
Unforeseen e =
    (as_api_error e ≡ none)
    × (as_http_error e ≡ none)
    × (is e not_found ≡ false)
    × (is e validation ≡ false)
    × (is e bad_request ≡ false)
    × (is e conflict ≡ false)
    × (is e unauthorized ≡ false)
    × (is e permission_denied ≡ false)

-- Errors that are none of the program's own kinds are answered alike, with status 500: the answer to
-- a request tells nothing of the error's text.
pub error_handler_hides :
    (lib : Library) (c : Asked) (e f : GoError)
    → Unforeseen e
    → Unforeseen f
    → (error_handler lib e c ≡ error_handler lib f c) × ((describe lib.status_text e).status ≡ 500)
unfolding error_handler describe map_error
error_handler_hides lib c e f (a, b, k, l, m, n, o, p) (a', b', k', l', m', n', o', p') = (
  rw (a, b, k, l, m, n, o, p, a', b', k', l', m', n', o', p') refl,
  rw (a, b, k, l, m, n, o, p) refl,
)
