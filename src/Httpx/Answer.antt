-- ===== src/Httpx/Answer.antt =====
-- What the handlers of the JSON API return: an answer that c.JSON writes, or an error for the error
-- handler.
use base_template_server_go.Base.{String, ℕ}
use base_template_server_go.Errors.{Details, GoError, api_error, bad_request, sentinel}
use base_template_server_go.Op.{Result, err, ok}
use base_template_server_go.Httpx.{describe}

pub record Answer (B : Type 0) : Type 0 where
  pub status : ℕ
  pub location : String
  pub body : B

abbrev pub json_answer : {B : Type 0} → ℕ → B → Answer B
json_answer status body = record { status = status; location = ""; body = body }

-- NewAPIError(ErrBadRequest, …)
unfoldable pub bad_body : String → Details → GoError
bad_body message details = api_error (sentinel bad_request) message details

-- The status that the client gets, from the handler or from the error handler.
abbrev pub status_of : {B : Type 0} → (ℕ → String) → Result (Answer B) → ℕ
status_of status_text (ok a) = a.status
status_of status_text (err e) = (describe status_text e).status
