-- ===== src/Config/Load.antt =====
-- Load and the readers of single variables. The parsers of Go's strconv, time and strings packages
-- are arguments.
use base_template_server_go.Base.{
  Bool, Duration, List, Option, String, [], false, hour, if◌then◌else◌, minute, nat_eq, none, not,
  pos, second, some, string_eq, true, ℕ, ℤ, ◌&&◌, ◌*◌, ◌==◌, ◌∷◌,
}
use base_template_server_go.Op.{Result, err, ok}
use base_template_server_go.Config.{Config, validate}

pub record Parsers (Float : Type 0) : Type 0 where
  pub atoi : String → Option ℤ
  pub parse_float : String → Option Float
  pub parse_bool : String → Option Bool
  pub parse_duration : String → Option Duration
  pub split : String → String → List String
  pub trim_space : String → String
  pub default_requests : Float

abbrev or_default {ℓ} : {A : Type ℓ} → Option A → A → A
or_default none d = d
or_default (some a) d = a

module _ (env : String → String) where
  unfoldable pub getenv : String → String → String
  getenv k d = let v = env k in if v == "" then d else v

  -- intEnv, floatEnv, boolEnv and durationEnv: a text that does not parse reads as the default.
  unfoldable pub parsed_env {ℓ} : {A : Type ℓ} → (String → Option A) → String → A → A
  parsed_env parse k d = let v = env k in if v == "" then d else or_default (parse v) d

-- The loop of splitCSV.
unfoldable pub trimmed_parts : (String → String) → List String → List String
trimmed_parts trim [] = []
trimmed_parts trim (p ∷ ps) =
    let rest = trimmed_parts trim ps in if trim p == "" then rest else trim p ∷ rest

unfoldable pub split_csv : {Float : Type 0} → Parsers Float → String → List String
unfolding trimmed_parts
split_csv lib s = if s == "" then [] else trimmed_parts lib.trim_space (lib.split s ",")

abbrev seconds : ℕ → Duration
seconds n = pos (n * second)

abbrev minutes : ℕ → Duration
minutes n = pos (n * minute)

module _ {Float : Type 0} (lib : Parsers Float) (env : String → String) where
  -- The literal that Load starts from.
  unfoldable pub defaults : Config Float
  unfolding getenv parsed_env split_csv
  defaults = record {
    app_env = getenv env "APP_ENV" "development";
    http = record {
      port = getenv env "PORT" "8080";
      read_timeout = parsed_env env lib.parse_duration "HTTP_READ_TIMEOUT" (seconds 15);
      write_timeout = parsed_env env lib.parse_duration "HTTP_WRITE_TIMEOUT" (seconds 15);
      shutdown_timeout = parsed_env env lib.parse_duration "HTTP_SHUTDOWN_TIMEOUT" (seconds 10);
      trusted_proxies = split_csv lib (env "TRUSTED_PROXIES");
    };
    database = record {
      host = getenv env "DB_HOST" "localhost";
      port = parsed_env env lib.atoi "DB_PORT" (pos 5432);
      user = getenv env "DB_USER" "postgres";
      password = getenv env "DB_PASSWORD" "password";
      db_name = getenv env "DB_NAME" "app_db";
      ssl_mode = getenv env "DB_SSLMODE" "disable";
      max_open_conns = parsed_env env lib.atoi "DB_MAX_OPEN_CONNS" (pos 25);
      max_idle_conns = parsed_env env lib.atoi "DB_MAX_IDLE_CONNS" (pos 25);
      conn_max_lifetime = parsed_env env lib.parse_duration "DB_CONN_MAX_LIFETIME" (minutes 5);
      migrations_dir = getenv env "DB_MIGRATIONS_DIR" "sql/migrations";
    };
    logging_level = getenv env "LOG_LEVEL" "";
    metrics = record {
      enabled = parsed_env env lib.parse_bool "METRICS_ENABLED" true;
      basic_auth_user = env "METRICS_BASIC_AUTH_USER";
      basic_auth_pass = env "METRICS_BASIC_AUTH_PASS";
      public = parsed_env env lib.parse_bool "METRICS_PUBLIC" false;
    };
    auth = record {
      disabled = parsed_env env lib.parse_bool "AUTH_DISABLED" true;
      session_cookie = getenv env "AUTH_SESSION_COOKIE" "session_id";
      session_ttl = parsed_env env lib.parse_duration "AUTH_SESSION_TTL" (pos (24 * hour));
      csrf_cookie_name = getenv env "AUTH_CSRF_COOKIE" "csrf_token";
      token_ttl = parsed_env env lib.parse_duration "AUTH_TOKEN_TTL" (pos (24 * hour));
      bcrypt_cost = parsed_env env lib.atoi "AUTH_BCRYPT_COST" (pos 10);
    };
    allowed_origins = "*" ∷ [];
    rate_limit = record {
      requests = parsed_env env lib.parse_float "RATE_LIMIT_REQUESTS" lib.default_requests;
      burst = parsed_env env lib.atoi "RATE_LIMIT_BURST" (pos 50);
      use_memory = parsed_env env lib.parse_bool "RATE_LIMIT_USE_MEMORY" true;
      postgres_store = parsed_env env lib.parse_bool "RATE_LIMIT_POSTGRES" false;
    };
    jobs = record {
      enabled = parsed_env env lib.parse_bool "JOBS_ENABLED" true;
      poll_interval = parsed_env env lib.parse_duration "JOBS_POLL_INTERVAL" (seconds 2);
      max_attempts = parsed_env env lib.atoi "JOBS_MAX_ATTEMPTS" (pos 5);
      embed_in_server = parsed_env env lib.parse_bool "JOBS_EMBED_IN_SERVER" true;
    };
    reports = record {
      processing_lease = parsed_env env lib.parse_duration "REPORTS_PROCESSING_LEASE" (minutes 5);
      reconcile_after = parsed_env env lib.parse_duration "REPORTS_RECONCILE_AFTER" (minutes 1);
      reconcile_interval =
          parsed_env env lib.parse_duration "REPORTS_RECONCILE_INTERVAL" (seconds 30);
    };
    body_limit = getenv env "BODY_LIMIT" "2M";
  }

  abbrev level_of : String → String → String
  level_of app_env level =
      if level == "" then (if app_env == "production" then "INFO" else "DEBUG") else level

  -- The three adjustments behind the literal.
  unfoldable pub adjusted : Config Float → Config Float
  unfolding split_csv
  adjusted c = record c {
    logging_level = level_of c.app_env c.logging_level;
    allowed_origins =
        let origins = env "ALLOWED_ORIGINS" in
        if origins == "" then c.allowed_origins else split_csv lib origins;
    metrics = record c.metrics {
      public =
          if env "METRICS_PUBLIC" == "" && not (c.app_env == "production")
          then true
          else c.metrics.public;
    };
  }

  unfoldable pub load : Result (Config Float)
  unfolding defaults adjusted validate
  load = elim (validate (adjusted defaults)) [ ok _ ↦ ok (adjusted defaults) | err e ↦ err e ]
