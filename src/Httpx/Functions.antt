-- ===== src/Httpx/Functions.antt =====
-- The functions that internal/platform/httpx/render.go hands to the templates. time.Time.Format and
-- html.EscapeString are arguments.
use base_template_server_go.Base.{
  Bool, List, Option, String, Time, [], ap, if◌then◌else◌, nat_eq, none, not, refl, some, string_eq,
  true, ◌==◌, ◌∙◌, ◌∷◌, ◌≡◌, ◌⧺◌,
}
use base_template_server_go.Table.{assign, find, find-assign}
use base_template_server_go.Errors.{GoError, foreign}
use base_template_server_go.Op.{Result, err, ok}

-- A value of type any: what the functions tell apart.
pub data Any (A : Type 0) : Type 0 where
  of_string : String → Any A
  of_time : Time → Any A
  of_pointer : Option Time → Any A
  of_other : A → Any A

abbrev pub dict_args : GoError
dict_args = foreign "dict: need even number of args"

abbrev pub dict_key : GoError
dict_key = foreign "dict: keys must be strings"

module _ {A : Type 0} where
  -- Whether the length is even.
  abbrev pub even : List (Any A) → Bool
  even [] = true
  even (v ∷ vs) = not (even vs)

  -- The loop of `dict`.
  unfoldable pub fill : List (Any A) → List (String × Any A) → Result (List (String × Any A))
  unfolding assign
  fill [] m = ok m
  fill (k ∷ []) m = ok m
  fill (of_string k ∷ v ∷ vs) m = fill vs (assign k v m)
  fill (of_time t ∷ v ∷ vs) m = err dict_key
  fill (of_pointer t ∷ v ∷ vs) m = err dict_key
  fill (of_other a ∷ v ∷ vs) m = err dict_key

  unfoldable pub dict : List (Any A) → Result (List (String × Any A))
  unfolding fill
  dict values = if not (even values) then err dict_args else fill values []

  -- `format` is v.UTC().Format of one layout.
  unfoldable pub format_time : (Time → Bool) → (Time → String) → Any A → String
  format_time is_zero format (of_time t) = if is_zero t then "" else format t
  format_time is_zero format (of_pointer none) = ""
  format_time is_zero format (of_pointer (some t)) = if is_zero t then "" else format t
  format_time is_zero format (of_string s) = ""
  format_time is_zero format (of_other a) = ""

  -- The arguments of a call for these pairs.
  abbrev listed : List (String × Any A) → List (Any A)
  listed [] = []
  listed ((k, v) ∷ ps) = of_string k ∷ v ∷ listed ps

  -- The value that the last pair of a key has.
  abbrev last_of : String → List (String × Any A) → Option (Any A) → Option (Any A)
  last_of i [] o = o
  last_of i ((k, v) ∷ ps) o = last_of i ps (if k == i then some v else o)

  even-listed : (ps : List (String × Any A)) → even (listed ps) ≡ true
  even-listed [] = refl
  even-listed ((k, v) ∷ ps) = rw (even-listed ps) refl

  fill-listed :
      (ps m : List (String × Any A))
      → (d : List (String × Any A)) × (fill (listed ps) m ≡ ok d)
        × ((i : String) → find i d ≡ last_of i ps (find i m))
  unfolding fill
  fill-listed [] m = (m, refl, λ i. refl)
  fill-listed ((k, v) ∷ ps) m =
      let (d, e, found) = fill-listed ps (assign k v m) in
      (d, e, λ i. found i ∙ ap (last_of i ps) (find-assign k v m i))

  -- A call of `dict` with pairs of a key and a value succeeds, and gives the map in which each key has
  -- the value of its last pair.
  dict-listed :
      (ps : List (String × Any A))
      → (d : List (String × Any A)) × (dict (listed ps) ≡ ok d)
        × ((i : String) → find i d ≡ last_of i ps none)
  unfolding dict find
  dict-listed ps = let (d, e, found) = fill-listed ps [] in (d, rw (even-listed ps) e, found)

unfoldable pub csrf_field : (String → String) → String → String
csrf_field escape_string token =
    "<input type=\"hidden\" name=\"csrf_token\" value=\"" ⧺ escape_string token ⧺ "\">"
