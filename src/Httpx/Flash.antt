-- ===== src/Httpx/Flash.antt =====
-- internal/platform/httpx/flash.go: one-shot messages in a cookie. json and base64 are arguments.
use base_template_server_go.Base.{
  List, Option, Option-cases, String, [], arith, eq_iff, false, if◌then◌else◌, inl, inr, nat_eq,
  negsuc, none, pos, refl, some, string_eq, ℤ, ◌++◌, ◌==◌, ◌∷◌, ◌≡◌, ◌≢◌,
}

pub record Flash : Type 0 where
  pub type : String
  pub message : String

pub record Codec : Type 0 where
  pub marshal : List Flash → Option String
  pub unmarshal : String → Option (List Flash)
  pub encode : String → String
  pub decode : String → Option String

-- What the functions read and write of an echo.Context: the value under the context key, the cookie
-- of the request, and the value and the age of each cookie that was set.
pub record FlashContext : Type 0 where
  pub stored : Option (List Flash)
  pub cookie : Option String
  pub set_cookies : List (String × ℤ)

abbrev then_unmarshal : Codec → Option String → Option (List Flash)
then_unmarshal lib none = none
then_unmarshal lib (some raw) = lib.unmarshal raw

abbrev from_cookie : Codec → Option String → Option (List Flash)
from_cookie lib none = none
from_cookie lib (some value) = if value == "" then none else then_unmarshal lib (lib.decode value)

abbrev remember : FlashContext → Option (List Flash) → List Flash × FlashContext
remember c none = ([], c)
remember c (some out) = (out, record c { stored = some out })

abbrev peek_by : Codec → FlashContext → Option (List Flash) → List Flash × FlashContext
peek_by lib c (some flashes) = (flashes, c)
peek_by lib c none = remember c (from_cookie lib c.cookie)

unfoldable pub peek_flash : Codec → FlashContext → List Flash × FlashContext
peek_flash lib c = peek_by lib c c.stored

abbrev send : Codec → FlashContext → Option String → FlashContext
send lib c none = c
send lib c (some raw) = record c { set_cookies = c.set_cookies ++ (lib.encode raw, pos 300) ∷ [] }

unfoldable pub set_flash : Codec → FlashContext → List Flash → FlashContext
unfolding peek_flash
set_flash lib c [] = c
set_flash lib c (f ∷ fs) =
    let (pending, d) = peek_flash lib c in
    let every = pending ++ f ∷ fs in send lib (record d { stored = some every }) (lib.marshal every)

unfoldable pub clear_flash : FlashContext → FlashContext
clear_flash c = record c { set_cookies = c.set_cookies ++ ("", negsuc 0) ∷ [] }

unfoldable pub consume_flash : Codec → FlashContext → List Flash × FlashContext
unfolding peek_flash clear_flash
consume_flash lib c =
    let (out, d) = peek_flash lib c in (out, clear_flash (record d { stored = some [] }))

unfoldable pub flash_success : Codec → FlashContext → String → FlashContext
unfolding set_flash
flash_success lib c msg = set_flash lib c (record { type = "success"; message = msg } ∷ [])

unfoldable pub flash_error : Codec → FlashContext → String → FlashContext
unfolding set_flash
flash_error lib c msg = set_flash lib c (record { type = "error"; message = msg } ∷ [])

unfoldable pub flash_info : Codec → FlashContext → String → FlashContext
unfolding set_flash
flash_info lib c msg = set_flash lib c (record { type = "info"; message = msg } ∷ [])

pub peek_flash-set_cookies :
    (lib : Codec) (c : FlashContext) → (peek_flash lib c).1.set_cookies ≡ c.set_cookies
unfolding peek_flash
peek_flash-set_cookies lib c = elim (Option-cases c.stored) [
  | inl absent ↦ elim (Option-cases (from_cookie lib c.cookie)) [
    | inl blank ↦ rw (absent, blank) refl
    | inr (out, e) ↦ rw (absent, e) refl
  ]
  | inr (out, e) ↦ rw e refl
]

pub peek_flash-set_flash :
    (lib : Codec) (c : FlashContext) (f : Flash) (fs : List Flash)
    → (peek_flash lib (set_flash lib c (f ∷ fs))).0 ≡ (peek_flash lib c).0 ++ f ∷ fs
unfolding set_flash
peek_flash-set_flash lib c f fs =
    elim (Option-cases (lib.marshal ((peek_flash lib c).0 ++ f ∷ fs))) [
      | inl bad ↦ rw bad refl
      | inr (raw, e) ↦ rw e refl
    ]

-- The next request of a browser that kept the cookie.
abbrev pub arriving : String → FlashContext
arriving value = record { stored = none; cookie = some value; set_cookies = [] }

from_cookie-encode :
    (lib : Codec) (raw : String) (flashes : List Flash)
    → (lib.encode raw == "") ≡ false
    → lib.decode (lib.encode raw) ≡ some raw
    → lib.unmarshal raw ≡ some flashes
    → from_cookie lib (some (lib.encode raw)) ≡ some flashes
from_cookie-encode lib raw flashes full d u = rw (full, d) u

-- Messages that are set are seen behind those that were pending: later in the same request, and, if
-- the codec reads back what it wrote, in the next one by the cookie that was set for five minutes.
pub set_flash-peek_flash :
    (lib : Codec) (c : FlashContext) (f : Flash) (fs : List Flash) (raw : String)
    → lib.marshal ((peek_flash lib c).0 ++ f ∷ fs) ≡ some raw
    → lib.unmarshal raw ≡ some ((peek_flash lib c).0 ++ f ∷ fs)
    → lib.decode (lib.encode raw) ≡ some raw
    → lib.encode raw ≢ ""
    → ((peek_flash lib (set_flash lib c (f ∷ fs))).0 ≡ (peek_flash lib c).0 ++ f ∷ fs)
      × ((set_flash lib c (f ∷ fs)).set_cookies
          ≡ (peek_flash lib c).1.set_cookies ++ (lib.encode raw, pos 300) ∷ [])
      × ((peek_flash lib (arriving (lib.encode raw))).0 ≡ (peek_flash lib c).0 ++ f ∷ fs)
unfolding set_flash
set_flash-peek_flash lib c f fs raw m u d given =
    let full : (lib.encode raw == "") ≡ false = ground (arith, eq_iff (lib.encode raw) "", given) in
    let back = from_cookie-encode lib raw _ full d u in (rw m refl, rw m refl, rw back refl)

-- Messages are consumed once: what is consumed is what was pending, nothing is pending afterwards in
-- the same request, and the browser is told to drop the cookie.
consume_flash-once :
    (lib : Codec) (c : FlashContext)
    → ((consume_flash lib c).0 ≡ (peek_flash lib c).0)
      × ((peek_flash lib (consume_flash lib c).1).0 ≡ [])
      × ((consume_flash lib c).1.set_cookies
          ≡ (peek_flash lib c).1.set_cookies ++ ("", negsuc 0) ∷ [])
unfolding consume_flash
consume_flash-once lib c = (refl, refl, refl)
