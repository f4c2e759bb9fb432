-- ===== src/Httpx/Cookies.antt =====
-- The cookies that handlers and middlewares set, and what a browser that keeps them sends next
-- (RFC 6265: the last cookie of a name counts, a negative age deletes it).
use base_template_server_go.Base.{
  Bool, List, Option, String, Time, [], arith, eq_refl, nat_eq, negsuc, pos, refl, some, string_eq,
  ℤ, ◌++◌, ◌∷◌, ◌≡◌,
}
use base_template_server_go.Table.{assign, find, find-assign, remove}

-- The fields of http.Cookie that the program sets.
pub record Cookie : Type 0 where
  pub name : String
  pub value : String
  pub path : String
  pub http_only : Bool
  pub secure : Bool
  pub same_site_lax : Bool
  pub expires : Option Time
  pub max_age : ℤ

abbrev kept_by : List (String × String) → Cookie → ℤ → List (String × String)
kept_by jar c (pos n) = assign c.name c.value jar
kept_by jar c (negsuc n) = remove c.name jar

unfoldable pub held : List (String × String) → List Cookie → List (String × String)
unfolding assign remove
held jar [] = jar
held jar (c ∷ cs) = held (kept_by jar c c.max_age) cs

pub held-append :
    (jar : List (String × String)) (cs ds : List Cookie)
    → held jar (cs ++ ds) ≡ held (held jar cs) ds
unfolding held
held-append jar [] ds = refl
held-append jar (c ∷ cs) ds = held-append (kept_by jar c c.max_age) cs ds

pub find-held_last :
    (jar : List (String × String)) (cs : List Cookie) (c : Cookie)
    → c.max_age ≡ pos 0
    → find c.name (held jar (cs ++ c ∷ [])) ≡ some c.value
unfolding held
find-held_last jar cs c young =
    rw (held-append jar cs (c ∷ []), young, find-assign) ground (arith, eq_refl c.name)
