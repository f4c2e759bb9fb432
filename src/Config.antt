-- ===== src/Config.antt =====
-- internal/platform/config/config.go: reading and checking the configuration. The environment is a
-- function that gives "" for a variable that is not set, as `os.Getenv` does.
pub mod Load
pub mod Checked
mod Tests
use base_template_server_go.Base.{
  Bool, Duration, List, String, if◌then◌else◌, nat_eq, string_eq, true, ℤ, ◌&&◌, ◌==◌, ◌||◌,
}
use base_template_server_go.Errors.{foreign, is}
use base_template_server_go.Op.{Result, err, ok}

pub record HttpConfig : Type 0 where
  pub port : String
  pub read_timeout : Duration
  pub write_timeout : Duration
  pub shutdown_timeout : Duration
  pub trusted_proxies : List String

pub record DatabaseConfig : Type 0 where
  pub host : String
  pub port : ℤ
  pub user : String
  pub password : String
  pub db_name : String
  pub ssl_mode : String
  pub max_open_conns : ℤ
  pub max_idle_conns : ℤ
  pub conn_max_lifetime : Duration
  pub migrations_dir : String

pub record MetricsConfig : Type 0 where
  pub enabled : Bool
  pub basic_auth_user : String
  pub basic_auth_pass : String
  pub public : Bool

pub record AuthConfig : Type 0 where
  pub disabled : Bool
  pub session_cookie : String
  pub session_ttl : Duration
  pub csrf_cookie_name : String
  pub token_ttl : Duration
  pub bcrypt_cost : ℤ

-- `Requests` is a float64, whose type is an argument.
pub record RateLimitConfig (Float : Type 0) : Type 0 where
  pub requests : Float
  pub burst : ℤ
  pub use_memory : Bool
  pub postgres_store : Bool

pub record JobsConfig : Type 0 where
  pub enabled : Bool
  pub poll_interval : Duration
  pub max_attempts : ℤ
  pub embed_in_server : Bool

pub record ReportsConfig : Type 0 where
  pub processing_lease : Duration
  pub reconcile_after : Duration
  pub reconcile_interval : Duration

pub record Config (Float : Type 0) : Type 0 where
  pub app_env : String
  pub http : HttpConfig
  pub database : DatabaseConfig
  pub logging_level : String
  pub metrics : MetricsConfig
  pub auth : AuthConfig
  pub allowed_origins : List String
  pub rate_limit : RateLimitConfig Float
  pub jobs : JobsConfig
  pub reports : ReportsConfig
  pub body_limit : String

-- Validate of the checks in production.
unfoldable pub validate_production : MetricsConfig → AuthConfig → Result (Unit {0})
validate_production metrics auth =
    if metrics.public && metrics.basic_auth_user == ""
    then err (foreign "production requires METRICS_BASIC_AUTH_USER/PASS or METRICS_PUBLIC=false")
    else if auth.disabled
    then err (foreign "AUTH_DISABLED cannot be true in production")
    else ok tt

unfoldable pub validate : {Float : Type 0} → Config Float → Result (Unit {0})
unfolding validate_production
validate c =
    if c.http.port == ""
    then err (foreign "PORT is required")
    else if c.database.host == "" || c.database.db_name == ""
    then err (foreign "database host and name are required")
    else if c.app_env == "production"
    then validate_production c.metrics c.auth
    else ok tt
