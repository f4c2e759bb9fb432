-- ===== src/Events.antt =====
-- internal/platform/events/events.go: the synchronous event bus. A handler works on the state of
-- the whole program.
pub mod Delivery
use base_template_server_go.Base.{
  List, Option, String, [], nat_eq, none, some, string_eq, ◌++◌, ◌∷◌,
}
use base_template_server_go.Table.{assign, find}
use base_template_server_go.Op.{Op}
use base_template_server_go.Authn.{Context}

pub record Event (P : Type 0) : Type 0 where
  pub name : String
  pub payload : P

abbrev pub Handler : Type 0 → Type 0 → Type 0
Handler S P = Context → Event P → Op S (Unit {0})

pub record Bus (S P : Type 0) : Type 0 where
  pub handlers : List (String × List (Handler S P))

unfoldable pub new_bus : {S P : Type 0} → Bus S P
new_bus = record { handlers = [] }

-- A missing key of the map reads as the nil slice.
abbrev pub slice {ℓ} : {H : Type ℓ} → Option (List H) → List H
slice none = []
slice (some hs) = hs

unfoldable pub handlers_of : {S P : Type 0} → Bus S P → String → List (Handler S P)
unfolding find
handlers_of b name = slice (find name b.handlers)

unfoldable pub subscribe : {S P : Type 0} → String → Handler S P → Bus S P → Bus S P
unfolding assign
subscribe name h b = record { handlers = assign name (handlers_of b name ++ h ∷ []) b.handlers }

-- The loop of Publish: the error of a handler is logged, and the next one runs.
unfoldable pub deliver : {S P : Type 0} → List (Handler S P) → Context → Event P → S → S
deliver [] ctx event s = s
deliver (h ∷ hs) ctx event s = deliver hs ctx event (h ctx event s).1

unfoldable pub publish : {S P : Type 0} → Bus S P → Context → Event P → S → S
publish b ctx event s = deliver (handlers_of b event.name) ctx event s
