-- ===== src/Logging.antt =====
-- internal/platform/logging/logging.go: levels, request ids and entries. What is passed to zap is a
-- list of lines; json.Marshal, new ids, texts of the time and of the stack are arguments.
pub mod Traces
mod Tests
use base_template_server_go.Base.{
  Bool, List, Option, String, [], false, if◌then◌else◌, nat_eq, none, some, string_eq, true, ℕ,
  ◌++◌, ◌==◌, ◌∷◌,
}
use base_template_server_go.Op.{Op, Result, err, ok}
use base_template_server_go.Errors.{GoError, text}
use base_template_server_go.Authn.{Context}

pub data Level : Type 0 where
  debug : Level
  info : Level
  warn : Level
  error : Level
  fatal : Level

-- The switch of Initialize, and whether it warns.
unfoldable pub parse_level : (String → String) → String → Level × Bool
parse_level to_upper s =
    let up = to_upper s in
    if up == "DEBUG"
    then (debug, false)
    else if up == "INFO"
    then (info, false)
    else if up == "WARN"
    then (warn, false)
    else if up == "ERROR"
    then (error, false)
    else if up == "FATAL"
    then (fatal, false)
    else (debug, true)

-- The kinds of values that the program logs beside a message.
pub data Value : Type 0 where
  of_text : String → Value
  of_number : ℕ → Value

abbrev pub Metadata : Type 0
Metadata = List (String × Value)

-- `error` and `stack` are "" where they are omitted.
pub record LogEntry : Type 0 where
  pub timestamp : String
  pub level : Level
  pub message : String
  pub trace_id : String
  pub service : String
  pub environment : String
  pub component : String
  pub error_text : String
  pub stack : String
  pub metadata : Metadata

pub record Logger : Type 0 where
  pub component : String
  pub trace_id : String

abbrev or_blank : Option String → String
or_blank none = ""
or_blank (some s) = s

abbrev first_of : Option String → Option String → String
first_of (some id) legacy = id
first_of none legacy = or_blank legacy

-- `legacy` is the value under the key of older test helpers; a nil context is none.
unfoldable pub request_id_from_context : Option Context → Option String → String
request_id_from_context none legacy = ""
request_id_from_context (some ctx) legacy = first_of ctx.request_id legacy

unfoldable pub context_with_request_id : Context → String → Context
context_with_request_id ctx id = record ctx { request_id = some id }

unfoldable pub with_context : Option Context → Option String → String → String → Logger
unfolding request_id_from_context
with_context ctx legacy component new_id =
    let trace_id = request_id_from_context ctx legacy in
    record { component = component; trace_id = if trace_id == "" then new_id else trace_id }

-- appEnv, the text of time.Now, that of runtime.Stack, and json.Marshal.
pub record Surroundings : Type 0 where
  pub app_env : String
  pub now : String
  pub stack : String
  pub marshal : LogEntry → Option String

abbrev pub Lines : Type 0
Lines = List (Level × String)

abbrev is_grave : Level → Bool
is_grave error = true
is_grave fatal = true
is_grave _ = false

-- The entry that `log` marshals.
unfoldable pub new_entry :
    Surroundings → Logger → Level → String → Option GoError → Metadata → LogEntry
unfolding text
new_entry s l level msg e metadata = record {
  timestamp = s.now;
  level = level;
  message = msg;
  trace_id = l.trace_id;
  service = "app";
  environment = s.app_env;
  component = l.component;
  error_text = elim e [ none ↦ "" | some x ↦ text x ];
  stack = elim e [ none ↦ "" | some x ↦ if is_grave level then s.stack else "" ];
  metadata = metadata;
}

abbrev pub add_line : Level → Lines → Option String → Lines
add_line level lines none = lines
add_line level lines (some json) = lines ++ (level, json) ∷ []

-- A line that cannot be marshalled is only printed.
unfoldable pub log :
    Surroundings → Logger → Level → String → Option GoError → Metadata → Lines → Lines
unfolding new_entry
log s l level msg e metadata lines =
    add_line level lines (s.marshal (new_entry s l level msg e metadata))

-- What Middleware reads of the request and of the headers.
pub record Traffic : Type 0 where
  pub response_request_id : String
  pub request_request_id : String
  pub method : String
  pub path : String
  pub remote_ip : String
  pub user_agent : String

unfoldable pub request_id : Traffic → String → String
request_id t new_id =
    if t.response_request_id == ""
    then (if t.request_request_id == "" then new_id else t.request_request_id)
    else t.response_request_id

abbrev pub incoming : Traffic → String → Metadata
incoming t id =
    ("method", of_text t.method)
    ∷ ("path", of_text t.path)
    ∷ ("remote_ip", of_text t.remote_ip)
    ∷ ("user_agent", of_text t.user_agent)
    ∷ ("request_id", of_text id)
    ∷ []

-- The lines, and what the handlers work on; `status` reads c.Response().Status.
pub record Logged (S : Type 0) : Type 0 where
  pub lines : Lines
  pub rest : S

module _ {S : Type 0} (s : Surroundings) (status : S → ℕ) where
  abbrev pub writing : (Lines → Lines) → Logged S → Logged S
  writing f w = record w { lines = f w.lines }

  abbrev pub concluded : Logger → Result (Unit {0}) → ℕ → Lines → Lines
  unfolding log
  concluded l (ok u) code =
      log s l info "Request completed" none (("status_code", of_number code) ∷ [])
  concluded l (err e) code =
      log s l error "Request failed" (some e) (("status_code", of_number code) ∷ [])

  -- Middleware. `new_id` and `other_id` are the ids that it and WithContext may draw.
  unfoldable pub middleware :
      Traffic
      → String
      → String
      → Option String
      → (Context → Op (Logged S) (Unit {0}))
      → Context
      → Op (Logged S) (Unit {0})
  unfolding request_id context_with_request_id with_context log
  middleware t new_id other_id legacy next ctx w =
      let id = request_id t new_id in
      let ctx' = context_with_request_id ctx id in
      let l = with_context (some ctx') legacy "http" other_id in
      let (r, y) = next ctx' (writing (log s l info "Incoming request" none (incoming t id)) w) in
      (r, writing (concluded l r (status y.rest)) y)
