-- ===== src/Errors.antt =====
-- Go's error values as internal/platform/httpx/errors.go, internal/platform/authz/authz.go and
-- internal/reports/domain.go build and inspect them: sentinels, `fmt.Errorf("%w: …")`,
-- `*RetryableError`, `*APIError`, echo's `*HTTPError`, and errors of other packages.
pub mod Laws
use base_template_server_go.Base.{
  ℕ, String, Bool, true, false, Option, List, ◌==◌, if◌then◌else◌, string_eq,
}
use Prim.Native.String

-- The sentinel values that the program compares with `errors.Is`. `no_rows` is `sql.ErrNoRows`.
pub data Sentinel : Type 0 where
  not_found validation bad_request conflict unauthorized permission_denied internal no_rows :
      Sentinel

-- `Details map[string]interface{}` of an APIError: the handlers only fill in texts.
abbrev pub Details : Type 0
Details = Option (List (String × String))

-- A nil `Err` inside a RetryableError or an APIError is a constructor of its own.
pub data GoError : Type 0 where
  sentinel : Sentinel → GoError
  wrap : GoError → String → GoError
  retryable : GoError → GoError
  retryable_nil : GoError
  api_error : GoError → String → Details → GoError
  api_error_nil : String → Details → GoError
  http_error : (code : ℕ) → (message : Option String) → GoError
  foreign : String → GoError

abbrev pub sentinel_eq : Sentinel → Sentinel → Bool
sentinel_eq not_found not_found = true
sentinel_eq validation validation = true
sentinel_eq bad_request bad_request = true
sentinel_eq conflict conflict = true
sentinel_eq unauthorized unauthorized = true
sentinel_eq permission_denied permission_denied = true
sentinel_eq internal internal = true
sentinel_eq no_rows no_rows = true
sentinel_eq _ _ = false

-- errors.Is(err, target) for a sentinel target: the walk along `Unwrap`.
abbrev pub is : GoError → Sentinel → Bool
is (sentinel s) target = sentinel_eq s target
is (wrap e m) target = is e target
is (retryable e) target = is e target
is (api_error e m d) target = is e target
is _ target = false

-- IsRetryable: errors.As(err, &r) for a *RetryableError.
abbrev pub is_retryable : GoError → Bool
is_retryable (retryable e) = true
is_retryable retryable_nil = true
is_retryable (wrap e m) = is_retryable e
is_retryable (api_error e m d) = is_retryable e
is_retryable _ = false

-- Retryable on an error that is not nil.
unfoldable pub make_retryable : GoError → GoError
make_retryable e = if is_retryable e then e else retryable e

abbrev pub sentinel_text : Sentinel → String
sentinel_text not_found = "not found"
sentinel_text validation = "validation error"
sentinel_text bad_request = "bad request"
sentinel_text conflict = "conflict"
sentinel_text unauthorized = "unauthorized"
sentinel_text permission_denied = "permission denied"
sentinel_text internal = "internal error"
sentinel_text no_rows = "sql: no rows in result set"

-- err.Error(). The text of an echo HTTPError is echo's; it is used only in log lines.
unfoldable pub text : GoError → String
text (sentinel s) = sentinel_text s
text (wrap e m) = String.◌++◌ (text e) (String.◌++◌ ": " m)
text (retryable e) = text e
text retryable_nil = "retryable"
text (api_error e m d) = if m == "" then text e else m
text (api_error_nil m d) = if m == "" then "error" else m
text (http_error code m) = "http error"
text (foreign m) = m
