-- ===== src/Config/Checked.antt =====
-- What a configuration that Load returns is known to be.
use base_template_server_go.Base.{
  All, Bool-cases, List, String, [], arith, eq_iff, false, inl, inr, nat_eq, refl, string_eq, subst,
  ◌==◌, ◌↔◌, ◌∷◌, ◌≡◌, ◌≢◌, ◌⊎◌,
}
use base_template_server_go.Op.{Result, err, ok}
use base_template_server_go.Config.{Config, validate, validate_production}
use base_template_server_go.Config.Load.{
  Parsers, adjusted, defaults, load, split_csv, trimmed_parts,
}

-- What the server needs of a configuration, and what production asks for besides.
abbrev pub Fit : {Float : Type 0} → Config Float → Type 0
Fit c =
    (c.http.port ≢ "")
    × (c.database.host ≢ "")
    × (c.database.db_name ≢ "")
    × (c.app_env ≡ "production"
        → (c.auth.disabled ≡ false)
          × ((c.metrics.public ≡ false) ⊎ (c.metrics.basic_auth_user ≢ "")))

-- Validate accepts exactly the fit configurations.
validate-Fit : {Float : Type 0} (c : Config Float) → (validate c ≡ ok tt) ↔ Fit c
unfolding validate validate_production
validate-Fit c =
    let port = eq_iff c.http.port "" in
    let host = eq_iff c.database.host "" in
    let name = eq_iff c.database.db_name "" in
    let env = eq_iff c.app_env "production" in
    let user = eq_iff c.metrics.basic_auth_user "" in
    (
      (λ v. (
        (λ e. ground (arith, port, v, e)),
        (λ e. ground (arith, port, host, v, e)),
        (λ e. ground (arith, port, host, name, v, e)),
        (λ e. (
          ground (arith, port, host, name, env, user, v, e),
          ground (arith, port, host, name, env, user, v, e),
        )),
      )),
      (λ fit. ground (arith, port, host, name, env, user, fit)),
    )

returned :
    {C : Type 0} (r : Result (Unit {0})) (d c : C)
    → (elim r as (λ r. Result C) [ ok _ ↦ ok d | err e ↦ err e ]) ≡ ok c
    → (d ≡ c) × (r ≡ ok tt)
returned (ok tt) d c h = (cc h, refl)
returned (err e) d c h = absurd (cc h)

-- A configuration that Load returns is fit to serve: it has a port, a database host and a database
-- name, and in production authentication is on and the metrics are private or have a user name.
pub load-Fit :
    {Float : Type 0} (lib : Parsers Float) (env : String → String) (c : Config Float)
    → load lib env ≡ ok c
    → Fit c
unfolding load
load-Fit lib env c h =
    let (same, valid) = returned (validate (adjusted lib env (defaults lib env))) _ c h in
    (validate-Fit c).0 (subst (λ d. validate d ≡ ok tt) same valid)

trimmed_parts-All :
    (trim : String → String) (l : List String) → All (λ p. p ≢ "") (trimmed_parts trim l)
unfolding trimmed_parts
trimmed_parts-All trim [] = tt
trimmed_parts-All trim (p ∷ ps) = elim (Bool-cases (trim p == "")) [
  | inl e ↦ rw e (trimmed_parts-All trim ps)
  | inr e ↦
      rw e ((λ blank. ground (arith, eq_iff (trim p) "", e, blank)), trimmed_parts-All trim ps)
]

-- The parts of a comma-separated list are not empty.
split_csv-All :
    {Float : Type 0} (lib : Parsers Float) (s : String) → All (λ p. p ≢ "") (split_csv lib s)
unfolding split_csv
split_csv-All lib s = elim (Bool-cases (s == "")) [
  | inl e ↦ rw e tt
  | inr e ↦ rw e (trimmed_parts-All lib.trim_space (lib.split s ","))
]
