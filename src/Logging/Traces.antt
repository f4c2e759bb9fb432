-- ===== src/Logging/Traces.antt =====
-- The lines of one request.
use base_template_server_go.Base.{
  Option, Option-cases, String, [], ap, arith, eq_iff, inl, inr, none, refl, some, sym, ℕ, ◌++◌,
  ◌∙◌, ◌∷◌, ◌≡◌, ◌≢◌,
}
use base_template_server_go.Op.{Op, Result, err, ok}
use base_template_server_go.Errors.{GoError}
use base_template_server_go.Authn.{Context}
use mathlib.Core.List.{append-nil}
use base_template_server_go.Logging.{
  Level, Lines, LogEntry, Logged, Logger, Metadata, Surroundings, Traffic, concluded,
  context_with_request_id, error, incoming, info, log, middleware, new_entry, of_number, request_id,
  request_id_from_context, with_context, writing,
}

abbrev lines_of : LogEntry → Option String → Lines
lines_of e none = []
lines_of e (some json) = (e.level, json) ∷ []

-- What `log` adds for an entry.
abbrev pub rendered : Surroundings → LogEntry → Lines
rendered s e = lines_of e (s.marshal e)

log-rendered :
    (s : Surroundings) (l : Logger) (level : Level) (msg : String) (e : Option GoError)
    (m : Metadata) (lines : Lines)
    → log s l level msg e m lines ≡ lines ++ rendered s (new_entry s l level msg e m)
unfolding log new_entry
log-rendered s l level msg e m lines =
    elim (Option-cases (s.marshal (new_entry s l level msg e m))) [
      | inl bad ↦ rw bad (sym (append-nil lines))
      | inr (json, good) ↦ rw good refl
    ]

-- A request has an id if new ids are not empty.
request_id-given : (t : Traffic) (new_id : String) → new_id ≢ "" → request_id t new_id ≢ ""
unfolding request_id
request_id-given t new_id given =
    ground (arith, eq_iff t.response_request_id "", eq_iff t.request_request_id "", given)

abbrev pub outcome_level : Result (Unit {0}) → Level
outcome_level (ok u) = info
outcome_level (err e) = error

module _ {S : Type 0} (s : Surroundings) (status : S → ℕ) where
  -- Every logger made from the context of a request has the request's id as its trace id.
  traced :
      (ctx : Context) (id component other : String) (legacy : Option String)
      → id ≢ ""
      → (with_context (some (context_with_request_id ctx id)) legacy component other).trace_id ≡ id
  unfolding with_context context_with_request_id request_id_from_context
  traced ctx id component other legacy given = ground (arith, eq_iff id "", given)

  concluded-entry :
      (l : Logger) (r : Result (Unit {0})) (code : ℕ) (lines : Lines)
      → (last : LogEntry) × (last.trace_id ≡ l.trace_id)
        × (last.level ≡ outcome_level r)
        × (concluded s status l r code lines ≡ lines ++ rendered s last)
  unfolding concluded new_entry
  concluded-entry l (ok u) code lines = (
    _,
    refl,
    refl,
    log-rendered s l info "Request completed" none (("status_code", of_number code) ∷ []) lines,
  )
  concluded-entry l (err e) code lines = (
    _,
    refl,
    refl,
    log-rendered s l error "Request failed" (some e) (("status_code", of_number code) ∷ []) lines,
  )

  -- A request keeps one id: that of the response's header, else that of the request's, else a new
  -- one. Its handler runs with it in the context, and has as its trace id every logger made from this
  -- context. The middleware logs one entry before the handler runs and one after, both with this
  -- trace id, the second of level ERROR exactly if the handler failed; it passes the result on. A line
  -- that cannot be marshalled is left out. New ids must not be empty.
  pub middleware-traced :
      (t : Traffic) (new_id other_id : String) (legacy : Option String)
      (next : Context → Op (Logged S) (Unit {0})) (ctx : Context) (w : Logged S)
      → new_id ≢ ""
      → let id = request_id t new_id in
        let ctx' = context_with_request_id ctx id in
        let (res, z) = middleware s status t new_id other_id legacy next ctx w in
        (first : LogEntry) × (last : LogEntry) × (first.trace_id ≡ id)
        × (last.trace_id ≡ id)
        × (first.level ≡ info)
        × ((component other : String)
            → (with_context (some ctx') legacy component other).trace_id ≡ id)
        × (let (r, y) = next ctx' (record w { lines = w.lines ++ rendered s first }) in
            (res ≡ r)
            × (last.level ≡ outcome_level r)
            × (z ≡ record y { lines = y.lines ++ rendered s last }))
  unfolding middleware new_entry
  middleware-traced t new_id other_id legacy next ctx w given =
      let id = request_id t new_id in
      let known = request_id-given t new_id given in
      let ctx' = context_with_request_id ctx id in
      let l = with_context (some ctx') legacy "http" other_id in
      let same : l.trace_id ≡ id = traced ctx id "http" other_id legacy known in
      let first = new_entry s l info "Incoming request" none (incoming t id) in
      let (r, y) = next ctx' (record w { lines = w.lines ++ rendered s first }) in
      let (last, its, level, lines) = concluded-entry l r (status y.rest) y.lines in
      let begun = log-rendered s l info "Incoming request" none (incoming t id) w.lines in
      (
        first,
        last,
        same,
        its ∙ same,
        refl,
        λ component other. traced ctx id component other legacy known,
        (
          ap (λ ls. (next ctx' (record w { lines = ls })).0) begun,
          level,
          ap
                (λ ls.
                  let (r', y') = next ctx' (record w { lines = ls }) in
                  writing s status (concluded s status l r' (status y'.rest)) y')
                begun
              ∙ ap (λ ls. record y { lines = ls }) lines,
        ),
      )
