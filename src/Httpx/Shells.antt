-- ===== src/Httpx/Shells.antt =====
-- What the web handlers of all domains do for the shell of a page: the CSRF token, the messages, the
-- name of the user.
use base_template_server_go.Base.{
  Bool, List, Option, String, false, if◌then◌else◌, nat_eq, none, not, pos, some, string_eq, true,
  ◌&&◌, ◌==◌,
}
use base_template_server_go.Table.{find}
use base_template_server_go.Op.{Op, ok, zoom}
use base_template_server_go.Authn.{Context, Principal, from_context}
use base_template_server_go.Config.{AuthConfig}
use base_template_server_go.Httpx.Cookies.{Cookie}
use base_template_server_go.Httpx.Flash.{Codec, Flash, FlashContext, consume_flash}
use base_template_server_go.Httpx.Render.{Exchange, Shell, set_cookie}

abbrev pub csrf_cookie : AuthConfig → String → Cookie
csrf_cookie cfg token = record {
  name = cfg.csrf_cookie_name;
  value = token;
  path = "/";
  http_only = false;
  secure = false;
  same_site_lax = true;
  expires = none;
  max_age = pos 0;
}

abbrev csrf_by : AuthConfig → String → Option String → Exchange → String × Exchange
csrf_by cfg random (some value) x = (value, x)
csrf_by cfg random none x = (random, set_cookie (csrf_cookie cfg random) x)

-- Handler.csrf: `random` is what auth.NewCSRFToken draws.
unfoldable pub csrf : AuthConfig → String → Exchange → String × Exchange
unfolding find
csrf cfg random x = csrf_by cfg random (find cfg.csrf_cookie_name x.request.cookies) x

abbrev named : Principal × Bool → String
named (p, found) = if found && not (p.user_id == "") then p.user_id else ""

-- Handler.user
unfoldable pub user : Context → String
unfolding from_context
user ctx = named (from_context ctx)

unfoldable pub consume : Codec → Exchange → List Flash × Exchange
unfolding consume_flash
consume codec x = let (out, f) = consume_flash codec x.flash in (out, record x { flash = f })

unfoldable pub new_shell :
    Codec → AuthConfig → Context → String → String → String → Exchange → Shell × Exchange
unfolding csrf user consume
new_shell codec cfg ctx title nav random x =
    let (token, y) = csrf cfg random x in
    let (messages, z) = consume codec y in
    (record { title = title; csrf = token; flash = messages; user = user ctx; nav = nav }, z)

-- A handler's state: the world of the services and the exchange.
pub record Web (S : Type 0) : Type 0 where
  pub world : S
  pub exchange : Exchange

abbrev pub on_world : {S A : Type 0} → Op S A → Op (Web S) A
on_world m = zoom (λ w. w.world) (λ s w. record w { world = s }) m

abbrev pub on_exchange : {S A : Type 0} → Op Exchange A → Op (Web S) A
on_exchange m = zoom (λ w. w.exchange) (λ x w. record w { exchange = x }) m

-- An assignment of a value that cannot fail.
abbrev pub reading : {S A : Type 0} → (S → A × S) → Op S A
reading f s = let (a, t) = f s in (ok a, t)

-- httpx.FlashSuccess(c, msg) and its kin.
abbrev pub flashing : (FlashContext → FlashContext) → Op Exchange (Unit {0})
flashing f x = (ok tt, record x { flash = f x.flash })
