-- ===== src/Httpx/Form.antt =====
-- internal/platform/httpx/form.go. `fields` is none for a nil map.
use base_template_server_go.Base.{
  Bool, List, Option, Option-cases, String, [], arith, inl, inr, length, ltb, nat_eq, none, not,
  refl, some, string_eq, true, ℕ, ◌==◌, ◌||◌, ◌∷◌, ◌≡◌, ◌≢◌,
}
use base_template_server_go.Table.{find}

pub record FormErrors : Type 0 where
  pub global : String
  pub fields : Option (List (String × String))

abbrev entries : Option (List (String × String)) → ℕ
entries none = 0
entries (some m) = length m

unfoldable pub has : FormErrors → Bool
has e = not (e.global == "") || ltb 0 (entries e.fields)

abbrev or_blank : Option String → String
or_blank none = ""
or_blank (some m) = m

unfoldable pub field : FormErrors → String → String
unfolding find
field e name = elim e.fields [ none ↦ "" | some m ↦ or_blank (find name m) ]

unfoldable pub new_field_errors : List (String × String) → FormErrors
new_field_errors fields = record { global = ""; fields = some fields }

unfoldable pub global_error : String → FormErrors
global_error msg = record { global = msg; fields = none }

abbrev pub no_errors : FormErrors
no_errors = record { global = ""; fields = some [] }

some-find :
    (name : String) (m : List (String × String))
    → or_blank (find name m) ≢ ""
    → ltb 0 (length m) ≡ true
unfolding find
some-find name [] shown = absurd (shown refl)
some-find name (x ∷ m) shown = ground arith

-- Errors are shown in a field, or above the form, only of a form that has errors.
pub field-has : (e : FormErrors) (name : String) → field e name ≢ "" → has e ≡ true
unfolding field has find
field-has e name shown = elim (Option-cases e.fields) [
  | inl bad ↦ absurd (shown (rw bad refl))
  | inr (m, good) ↦ let full = some-find name m (rw good at shown) in rw good (ground (arith, full))
]
