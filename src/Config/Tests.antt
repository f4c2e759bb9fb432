-- ===== src/Config/Tests.antt =====
-- Environments, and the theorems at them.
use base_template_server_go.Base.{
  String, [], false, if◌then◌else◌, nat_eq, none, refl, some, string_eq, true, ℕ, ◌==◌, ◌∷◌, ◌≡◌,
}
use base_template_server_go.Errors.{foreign}
use base_template_server_go.Op.{err, ok}
use base_template_server_go.Config.{Config, validate, validate_production}
use base_template_server_go.Config.Load.{
  Parsers, adjusted, defaults, getenv, load, parsed_env, split_csv, trimmed_parts,
}
use base_template_server_go.Config.Checked.{Fit, load-Fit}

-- Parsers that know a few texts. `Float` is a natural number here.
abbrev parsers : Parsers ℕ
parsers = record {
  atoi = λ s. none;
  parse_float = λ s. none;
  parse_bool = λ s. if s == "true" then some true else if s == "false" then some false else none;
  parse_duration = λ s. none;
  split = λ s separator. "a" ∷ " " ∷ "b" ∷ [];
  trim_space = λ s. if s == " " then "" else s;
  default_requests = 100;
}

abbrev production : String → String
production k =
    if k == "APP_ENV"
    then "production"
    else if k == "AUTH_DISABLED"
    then "false"
    else if k == "ALLOWED_ORIGINS"
    then "a, ,b"
    else ""

abbrev loaded : Config ℕ
loaded = adjusted parsers production (defaults parsers production)

accepted : load parsers production ≡ ok loaded
unfolding load defaults adjusted validate validate_production getenv parsed_env split_csv
    trimmed_parts
accepted = refl

tests :
    (loaded.allowed_origins ≡ "a" ∷ "b" ∷ [])
    × (loaded.metrics.public ≡ false)
    × (loaded.logging_level ≡ "INFO")
    × (load parsers (λ k. if k == "APP_ENV" then "production" else "")
        ≡ err (foreign "AUTH_DISABLED cannot be true in production"))
unfolding load defaults adjusted validate validate_production getenv parsed_env split_csv
    trimmed_parts
tests = (refl, refl, refl, refl)

load-Fit_example : Fit loaded
load-Fit_example = load-Fit parsers production loaded accepted
