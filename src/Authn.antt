-- ===== src/Authn.antt =====
-- internal/platform/authn/principal.go and internal/platform/authz/authz.go, with the request's
-- context as a record of the values that the program stores in it.
use base_template_server_go.Base.{
  ℕ, String, Bool, true, false, Option, none, some, List, [], ◌∷◌, ◌==◌, ◌||◌, if◌then◌else◌,
  string_eq,
}
use base_template_server_go.Errors.{sentinel, permission_denied}
use base_template_server_go.Op.{Result, ok, err}

pub record Principal : Type 0 where
  pub user_id : String
  pub roles : List String
  pub auth_method : String

-- jobs.AttemptInfo
pub record AttemptInfo : Type 0 where
  pub attempt : ℕ
  pub max_attempts : ℕ

-- The values under the context keys of authn, jobs and logging.
pub record Context : Type 0 where
  pub principal : Option Principal
  pub attempt_info : Option AttemptInfo
  pub request_id : Option String

abbrev pub background : Context
background = record { principal = none; attempt_info = none; request_id = none }

unfoldable pub with_principal : Context → Principal → Context
with_principal ctx p = record ctx { principal = some p }

abbrev nobody : Principal
nobody = record { user_id = ""; roles = []; auth_method = "" }

abbrev found_principal : Option Principal → Principal × Bool
found_principal (some p) = (p, true)
found_principal none = (nobody, false)

-- FromContext: the zero Principal when none is stored.
unfoldable pub from_context : Context → Principal × Bool
from_context ctx = found_principal ctx.principal

unfoldable pub anonymous : Principal
anonymous = record { user_id = ""; roles = []; auth_method = "anonymous" }

unfoldable pub require_authenticated : Principal → Bool → Result (Unit {0})
require_authenticated p auth_disabled =
    if auth_disabled
    then ok tt
    else if p.user_id == ""
    then err (sentinel permission_denied)
    else ok tt

has_role_in : List String → String → Bool
has_role_in [] role = false
has_role_in (r ∷ rs) role = r == role || has_role_in rs role

unfoldable pub has_role : Principal → String → Bool
unfolding has_role_in
has_role p role = has_role_in p.roles role
