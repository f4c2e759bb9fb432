-- ===== src/Todos/Api/Statuses.antt =====
-- The status of every answer of the API of todos, errors included.
use base_template_server_go.Base.{
  Bool-cases, Option, Option-cases, String, Time, false, if◌then◌else◌, inl, inr, nat_eq, none,
  refl, some, string_eq, ℕ, ◌==◌, ◌∙◌, ◌≡◌, ◌⊎◌,
}
use base_template_server_go.Errors.{is, no_rows}
use base_template_server_go.Op.{Result, Result-cases, err, ok}
use base_template_server_go.Authn.{Context, from_context, require_authenticated}
use base_template_server_go.Httpx.{describe, map_error}
use base_template_server_go.Httpx.Answer.{bad_body, status_of}
use base_template_server_go.Todos.{CreateParams, Params, UpdateParams, Uuid}
use base_template_server_go.Todos.Service as TodosService
use base_template_server_go.Todos.Api.{create, delete, get, list, update}

module _ {S : Type 0} (s : TodosService.Service S) (ctx : Context) where
  authorize-cases :
      (TodosService.authorize s ctx ≡ ok tt)
      ⊎ (TodosService.authorize s ctx ≡ err TodosService.denied)
  unfolding TodosService.authorize
  authorize-cases =
      elim (Result-cases (require_authenticated (from_context ctx).0 s.auth_disabled)) [
        | inl (a, e) ↦ inl (rw e refl)
        | inr (x, e) ↦ inr (rw e refl)
      ]

abbrev pub behind_auth : Result (Unit {0}) → ℕ → ℕ
behind_auth (ok u) n = n
behind_auth (err e) n = 403

abbrev pub with_id : Option Uuid → (Uuid → ℕ) → ℕ
with_id none k = 400
with_id (some id) k = k id

-- The status of what the store answered for one row.
abbrev pub of_row : {A : Type 0} → Result A → ℕ → ℕ
of_row (ok a) n = n
of_row (err e) n = if is e no_rows then 404 else 500

abbrev pub or_500 : {A : Type 0} → Result A → ℕ → ℕ
or_500 (ok a) n = n
or_500 (err e) n = 500

abbrev pub with_body : Result Params → (Params → ℕ) → ℕ
with_body (err e) k = 400
with_body (ok req) k = k req

abbrev pub with_label : Params → ℕ → ℕ
with_label req n = if req.label == "" then 422 else n

module _ {S : Type 0} (s : TodosService.Service S) (ctx : Context) (status_text : ℕ → String)
    (parse : String → Option Uuid) (param : String → String) (x : S) where
  found_status :
      (id : Uuid)
      → TodosService.authorize s ctx ≡ ok tt
      → parse (param "id") ≡ some id
      → status_of status_text (get s ctx parse param x).0
        ≡ of_row (s.store.find_todo_by_id id x).0 200
  unfolding get TodosService.find_todo_by_id describe map_error
  found_status id a p = elim (Result-cases (s.store.find_todo_by_id id x).0) [
    | inl (t, e) ↦ rw (a, p, e) refl
    | inr (z, e) ↦ elim (Bool-cases (is z no_rows)) [
      | inl gone ↦ rw (a, p, e, gone) refl
      | inr other ↦ rw (a, p, e, other) refl
    ]
  ]

  get_status :
      status_of status_text (get s ctx parse param x).0
      ≡ behind_auth
          (TodosService.authorize s ctx)
          (with_id (parse (param "id")) (λ id. of_row (s.store.find_todo_by_id id x).0 200))
  unfolding get TodosService.find_todo_by_id describe map_error
  get_status = elim (authorize-cases s ctx) [
    | inr no' ↦ rw no' refl
    | inl yes' ↦ elim (Option-cases (parse (param "id"))) [
      | inl bad ↦ rw (yes', bad) refl
      | inr (id, p) ↦ found_status id yes' p ∙ rw (yes', p) refl
    ]
  ]

  deleted_status :
      (id : Uuid)
      → TodosService.authorize s ctx ≡ ok tt
      → parse (param "id") ≡ some id
      → status_of status_text (delete s ctx parse param x).0
        ≡ of_row
            (s.store.find_todo_by_id id x).0
            (or_500 (s.store.delete_todo id (s.store.find_todo_by_id id x).1).0 200)
  unfolding delete TodosService.delete_todo describe map_error
  deleted_status id a p = elim (Result-cases (s.store.find_todo_by_id id x).0) [
    | inl (t, e) ↦ elim (Result-cases (s.store.delete_todo id (s.store.find_todo_by_id id x).1).0) [
      | inl (u, d) ↦ rw (a, p, e, d) refl
      | inr (z, d) ↦ rw (a, p, e, d) refl
    ]
    | inr (z, e) ↦ elim (Bool-cases (is z no_rows)) [
      | inl gone ↦ rw (a, p, e, gone) refl
      | inr other ↦ rw (a, p, e, other) refl
    ]
  ]

  delete_status :
      status_of status_text (delete s ctx parse param x).0
      ≡ behind_auth (TodosService.authorize s ctx) (
          with_id (parse (param "id")) (λ id.
            of_row
              (s.store.find_todo_by_id id x).0
              (or_500 (s.store.delete_todo id (s.store.find_todo_by_id id x).1).0 200)))
  unfolding delete TodosService.delete_todo describe map_error
  delete_status = elim (authorize-cases s ctx) [
    | inr no' ↦ rw no' refl
    | inl yes' ↦ elim (Option-cases (parse (param "id"))) [
      | inl bad ↦ rw (yes', bad) refl
      | inr (id, p) ↦ deleted_status id yes' p ∙ rw (yes', p) refl
    ]
  ]

  abbrev pub to_update : Params → Uuid → Time → UpdateParams
  to_update req id now = record {
    todo_id = id;
    label = req.label;
    completed = req.completed;
    updated_at = now;
  }

  updated_status :
      (req : Params) (id : Uuid) (now : Time)
      → TodosService.authorize s ctx ≡ ok tt
      → (req.label == "") ≡ false
      → parse (param "id") ≡ some id
      → status_of status_text (update s ctx parse param (ok req) now x).0
        ≡ of_row (s.store.update_todo (to_update req id now) x).0 200
  unfolding update TodosService.update_todo describe map_error
  updated_status req id now a l p =
      elim (Result-cases (s.store.update_todo (to_update req id now) x).0) [
        | inl (t, e) ↦ rw (a, l, p, e) refl
        | inr (z, e) ↦ elim (Bool-cases (is z no_rows)) [
          | inl gone ↦ rw (a, l, p, e, gone) refl
          | inr other ↦ rw (a, l, p, e, other) refl
        ]
      ]

  update_status :
      (now : Time) (b : Result Params)
      → status_of status_text (update s ctx parse param b now x).0
        ≡ with_body b (λ req. behind_auth (TodosService.authorize s ctx) (
            with_label req (
              with_id
                (parse (param "id"))
                (λ id. of_row (s.store.update_todo (to_update req id now) x).0 200))))
  unfolding update TodosService.update_todo describe map_error bad_body
  update_status now (err e) = refl
  update_status now (ok req) = elim (authorize-cases s ctx) [
    | inr no' ↦ rw no' refl
    | inl yes' ↦ elim (Bool-cases (req.label == "")) [
      | inl blank ↦ rw (yes', blank) refl
      | inr named ↦ elim (Option-cases (parse (param "id"))) [
        | inl bad ↦ rw (yes', named, bad) refl
        | inr (id, p) ↦ updated_status req id now yes' named p ∙ rw (yes', named, p) refl
      ]
    ]
  ]

  abbrev pub to_create : Params → Uuid → Time → CreateParams
  to_create req id now = record {
    todo_id = id;
    label = req.label;
    completed = req.completed;
    created_at = now;
    updated_at = now;
  }

  create_status :
      (id : Uuid) (now : Time) (b : Result Params)
      → status_of status_text (create s ctx b id now x).0
        ≡ with_body b (λ req.
          behind_auth
            (TodosService.authorize s ctx)
            (with_label req (or_500 (s.store.create_todo (to_create req id now) x).0 201)))
  unfolding create TodosService.create_todo describe map_error bad_body
  create_status id now (err e) = refl
  create_status id now (ok req) = elim (authorize-cases s ctx) [
    | inr no' ↦ rw no' refl
    | inl yes' ↦ elim (Bool-cases (req.label == "")) [
      | inl blank ↦ rw (yes', blank) refl
      | inr named ↦ elim (Result-cases (s.store.create_todo (to_create req id now) x).0) [
        | inl (t, e) ↦ rw (yes', named, e) refl
        | inr (z, e) ↦ rw (yes', named, e) refl
      ]
    ]
  ]

  list_status :
      status_of status_text (list s ctx x).0
      ≡ behind_auth (TodosService.authorize s ctx) (or_500 (s.store.list_all_todos x).0 200)
  unfolding list TodosService.list_all_todos describe map_error
  list_status = elim (authorize-cases s ctx) [
    | inr no' ↦ rw no' refl
    | inl yes' ↦ elim (Result-cases (s.store.list_all_todos x).0) [
      | inl (t, e) ↦ rw (yes', e) refl
      | inr (z, e) ↦ rw (yes', e) refl
    ]
  ]

  -- The status of each answer of the todo routes, over any store and whatever it answers. A body that
  -- does not bind gives 400; then a request that is not let in 403; then an empty label 422; then an
  -- id that does not parse 400; then a row that the store reports as missing 404 and any other error
  -- of the store 500; otherwise 201 for a creation and 200 for the other routes.
  pub api_statuses :
      (id : Uuid) (now : Time) (bind : Result Params)
      → let auth = TodosService.authorize s ctx in
        let by_id = with_id (parse (param "id")) in
        (status_of status_text (create s ctx bind id now x).0
          ≡ with_body bind (λ req.
            behind_auth auth
              (with_label req (or_500 (s.store.create_todo (to_create req id now) x).0 201))))
        × (status_of status_text (list s ctx x).0
            ≡ behind_auth auth (or_500 (s.store.list_all_todos x).0 200))
        × (status_of status_text (get s ctx parse param x).0
            ≡ behind_auth auth (by_id (λ i. of_row (s.store.find_todo_by_id i x).0 200)))
        × (status_of status_text (update s ctx parse param bind now x).0
            ≡ with_body bind (λ req. behind_auth auth (
                with_label req
                  (by_id (λ i. of_row (s.store.update_todo (to_update req i now) x).0 200)))))
        × (status_of status_text (delete s ctx parse param x).0
            ≡ behind_auth auth (
                by_id (λ i.
                  of_row
                    (s.store.find_todo_by_id i x).0
                    (or_500 (s.store.delete_todo i (s.store.find_todo_by_id i x).1).0 200))))
  api_statuses id now bind =
      (create_status id now bind, list_status, get_status, update_status now bind, delete_status)
