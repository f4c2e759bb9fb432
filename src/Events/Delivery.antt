-- ===== src/Events/Delivery.antt =====
-- Who is called when an event is published.
use base_template_server_go.Base.{
  Bool, Bool-cases, List, Option, String, [], ap, eq_iff, false, if◌then◌else◌, inl, inr, nat_eq,
  refl, some, string_eq, true, ◌++◌, ◌==◌, ◌∙◌, ◌∷◌, ◌≡◌,
}
use base_template_server_go.Table.{find-assign}
use base_template_server_go.Authn.{Context}
use base_template_server_go.Events.{
  Bus, Event, Handler, deliver, handlers_of, publish, slice, subscribe,
}

module _ {S P : Type 0} where
  deliver-append :
      (hs : List (Handler S P)) (h : Handler S P) (ctx : Context) (event : Event P) (s : S)
      → deliver (hs ++ h ∷ []) ctx event s ≡ (h ctx event (deliver hs ctx event s)).1
  unfolding deliver
  deliver-append [] h ctx event s = refl
  deliver-append (g ∷ gs) h ctx event s = deliver-append gs h ctx event (g ctx event s).1

  slice-if :
      (c : Bool) (x : List (Handler S P)) (y : Option (List (Handler S P)))
      → slice (if c then some x else y) ≡ (if c then x else slice y)
  slice-if true x y = refl
  slice-if false x y = refl

  handlers_of-subscribe :
      (b : Bus S P) (name other : String) (h : Handler S P)
      → handlers_of (subscribe name h b) other
        ≡ (if name == other then handlers_of b name ++ h ∷ [] else handlers_of b other)
  unfolding handlers_of subscribe
  handlers_of-subscribe b name other h =
      ap slice (find-assign name (handlers_of b name ++ h ∷ []) b.handlers other)
      ∙ slice-if (name == other) _ _

  -- A new subscriber of a name is called once for each event of that name, after the subscribers
  -- that were there before and on the state that they left, whether or not they returned errors.
  -- Events of other names do what they did before.
  pub publish-subscribe :
      (b : Bus S P) (name : String) (h : Handler S P) (ctx : Context) (event : Event P) (s : S)
      → publish (subscribe name h b) ctx event s ≡ (
          if name == event.name
          then (h ctx event (publish b ctx event s)).1
          else publish b ctx event s)
  unfolding publish
  publish-subscribe b name h ctx event s =
      ap (λ hs. deliver hs ctx event s) (handlers_of-subscribe b name event.name h)
      ∙ elim (Bool-cases (name == event.name)) [
        | inl same ↦
            let one : name ≡ event.name = (eq_iff name event.name).0 same in
            let old : handlers_of b name ≡ handlers_of b event.name = ap (handlers_of b) one in
            rw (same, old) (deliver-append (handlers_of b event.name) h ctx event s)
        | inr differ ↦ rw differ refl
      ]
