-- ===== src/Httpx.antt =====
-- internal/platform/httpx/errors.go: how an error is answered. The response that is written is data;
-- escaping, the texts of status codes and prefix tests are Go's and come as arguments.
pub mod Disclosure
pub mod Answer
pub mod Flash
pub mod Operations
pub mod Cookies
pub mod Form
pub mod Functions
pub mod Render
pub mod Shells
mod Tests
use base_template_server_go.Base.{
  Bool, Option, String, if◌then◌else◌, nat_eq, none, not, some, string_eq, ℕ, ◌&&◌, ◌==◌, ◌||◌, ◌⧺◌,
}
use base_template_server_go.Errors.{
  Details, GoError, api_error, api_error_nil, bad_request, conflict, http_error, is, not_found,
  permission_denied, retryable, text, unauthorized, validation, wrap,
}

-- The status, the code and the message.
unfoldable pub map_error : GoError → ℕ × String × String
map_error e =
    if is e not_found
    then (404, "NOT_FOUND", "Resource not found")
    else if is e validation
    then (422, "VALIDATION_ERROR", "Validation failed")
    else if is e bad_request
    then (400, "BAD_REQUEST", "Bad request")
    else if is e conflict
    then (409, "CONFLICT", "Conflict")
    else if is e unauthorized
    then (401, "UNAUTHORIZED", "Unauthorized")
    else if is e permission_denied
    then (403, "FORBIDDEN", "Permission denied")
    else (500, "INTERNAL_SERVER_ERROR", "An unexpected error occurred")

unfoldable pub error_page : ℕ → String
error_page status =
    if status == 400
    then "pages/errors/400.html"
    else if status == 401
    then "pages/errors/401.html"
    else if status == 403
    then "pages/errors/403.html"
    else if status == 404
    then "pages/errors/404.html"
    else if status == 422
    then "pages/errors/422.html"
    else "pages/errors/500.html"

-- errors.As(err, &apiErr): the first APIError of the chain; its `Err` may be nil.
abbrev pub as_api_error : GoError → Option (Option GoError × String × Details)
as_api_error (api_error e m d) = some (some e, m, d)
as_api_error (api_error_nil m d) = some (none, m, d)
as_api_error (wrap e m) = as_api_error e
as_api_error (retryable e) = as_api_error e
as_api_error _ = none

-- err.(*echo.HTTPError): a type assertion, which does not look behind a wrapping error.
abbrev pub as_http_error : GoError → Option (ℕ × Option String)
as_http_error (http_error code m) = some (code, m)
as_http_error _ = none

pub record Description : Type 0 where
  pub status : ℕ
  pub code : String
  pub message : String
  pub details : Details

-- MapError of the `Err` of an APIError: a nil error is none of the sentinels.
unfoldable pub map_inner : Option GoError → ℕ × String × String
unfolding map_error
map_inner none = (500, "INTERNAL_SERVER_ERROR", "An unexpected error occurred")
map_inner (some e) = map_error e

module _ (status_text : ℕ → String) where
  abbrev http_message : ℕ → Option String → String
  http_message code none = status_text code
  http_message code (some m) = m

  abbrev pub describe_plain : GoError → Option (ℕ × Option String) → Description
  describe_plain e (some (code, m)) = record {
    status = code;
    code = "HTTP_ERROR";
    message = http_message code m;
    details = none;
  }
  describe_plain e none =
      let (status, code, message) = map_error e in
      record {
        status = status;
        code = code;
        message = if status == 500 then message else text e;
        details = none;
      }

  abbrev pub describe_by : GoError → Option (Option GoError × String × Details) → Description
  describe_by e (some (inner, m, d)) =
      let (status, code, message) = map_inner inner in
      record { status = status; code = code; message = if m == "" then message else m; details = d }
  describe_by e none = describe_plain e (as_http_error e)

  -- The first half of ErrorHandler: status, code, message and details.
  unfoldable pub describe : GoError → Description
  unfolding map_error map_inner text
  describe e = describe_by e (as_api_error e)

-- What ErrorHandler reads of the request.
pub record Asked : Type 0 where
  pub committed : Bool
  pub is_htmx : Bool
  pub accept : String
  pub route : String

pub data Reply : Type 0 where
  untouched : Reply
  fragment : (status : ℕ) → (html : String) → Reply
  page : (status : ℕ) → (name title message : String) → Reply
  json : (status : ℕ) → (code message : String) → (details : Details) → Reply

pub record Library : Type 0 where
  pub status_text : ℕ → String
  pub escape_string : String → String
  pub has_prefix : String → String → Bool

unfoldable pub is_api : Library → String → Bool
is_api lib path = lib.has_prefix path "/api"

unfoldable pub wants_html : Library → Asked → Bool
unfolding is_api
wants_html lib c =
    c.is_htmx
    || (not (c.accept == "") && not (c.accept == "application/json") && not (is_api lib c.route))

unfoldable pub respond : Library → Asked → Description → Reply
unfolding wants_html error_page
respond lib c d =
    if c.committed
    then untouched
    else if wants_html lib c
    then (if c.is_htmx
        then fragment d.status (
            "<div class=\"rounded-md border border-danger/40 bg-danger/10 px-3 py-2 text-sm text-danger\" role=\"alert\">"
            ⧺ lib.escape_string d.message
            ⧺ "</div>")
        else page d.status (error_page d.status) (lib.status_text d.status) d.message)
    else json d.status d.code d.message d.details

unfoldable pub error_handler : Library → GoError → Asked → Reply
unfolding respond describe
error_handler lib e c = respond lib c (describe lib.status_text e)
