-- ===== src/Todos/Postgres/Agreement.antt =====
-- The service over the Postgres store does what the service over the in-memory store does.
use base_template_server_go.Errors.{GoError}
use base_template_server_go.Base.{Option-cases, inl, inr, none, refl, ◌≡◌}
use base_template_server_go.Sql.{select_one}
use base_template_server_go.Follows.{Follows, FollowsAt}
use base_template_server_go.Op.{map_err, ◌>>=◌}
use base_template_server_go.Todos.{CreateParams, UpdateParams, Uuid}
use base_template_server_go.Todos.Fake
use base_template_server_go.Todos.Postgres
use base_template_server_go.Todos.Postgres.Rows.{
  Keyed, Keyed-append, assign_new, assign_old, count-view, delete-Keyed, find-view, length-view,
  remove-view, update-Keyed, view,
}

module _ (db : Postgres.Database)
    (up : (q : Postgres.Statement) (t : Postgres.Table) → db.fails q t ≡ none) where
  pub find-Follows :
      (id : Uuid) → Follows view Keyed (Postgres.find_todo_by_id db id) (Fake.find_todo_by_id id)
  unfolding Postgres.find_todo_by_id Fake.find_todo_by_id Fake.or_no_rows
  find-Follows id = record {
    at = λ t k. elim (Option-cases (select_one (Postgres.has_id id) t)) [
      | inl e ↦ rw (up Postgres.Statement.finding t, find-view id t, e) (refl, k)
      | inr (r, e) ↦ rw (up Postgres.Statement.finding t, find-view id t, e) (refl, k)
    ];
  }

  pub count-Follows : Follows view Keyed (Postgres.count_todos db) Fake.count_todos
  unfolding Postgres.count_todos Fake.count_todos
  count-Follows = record {
    at = λ t k. rw (up Postgres.Statement.counting t, length-view t, count-view t) (refl, k);
  }

  pub update-Follows :
      (arg : UpdateParams) → Follows view Keyed (Postgres.update_todo db arg) (Fake.update_todo arg)
  unfolding Postgres.update_todo Fake.update_todo Fake.or_no_rows Postgres.set_todo
      Postgres.map_todo
  update-Follows arg = record {
    at = λ t k. elim (Option-cases (select_one (Postgres.has_id arg.todo_id) t)) [
      | inl e ↦ rw (up Postgres.Statement.updating t, find-view arg.todo_id t, e) (refl, k)
      | inr (r, e) ↦
          rw
            (
              up Postgres.Statement.updating t,
              find-view arg.todo_id t,
              e,
              assign_old arg.todo_id (Postgres.set_todo arg) t r (λ x. refl) k e,
            )
            (refl, update-Keyed _ (Postgres.set_todo arg) t (λ x. refl) k)
    ];
  }

  -- What DeleteTodo of the service does behind its checks: it looks for the row first.
  pub delete_known :
      (f g : GoError → GoError) (id : Uuid) (t : Postgres.Table)
      → Keyed t
      → FollowsAt view Keyed
          (map_err f (Postgres.find_todo_by_id db id) >>= λ _.
            map_err g (Postgres.delete_todo db id))
          (map_err f (Fake.find_todo_by_id id) >>= λ _. map_err g (Fake.delete_todo id))
          t
  unfolding Postgres.find_todo_by_id Fake.find_todo_by_id Fake.or_no_rows Fake.delete_todo
      Postgres.delete_todo
  delete_known f g id t k = elim (Option-cases (select_one (Postgres.has_id id) t)) [
    | inl e ↦ record { got = rw (up Postgres.Statement.finding t, find-view id t, e) (refl, k) }
    | inr (r, e) ↦ record {
      got =
          rw
            (
              up Postgres.Statement.finding t,
              find-view id t,
              e,
              up Postgres.Statement.deleting t,
              find-view id t,
              e,
              remove-view id t,
            )
            (refl, delete-Keyed _ t k);
    }
  ]

  pub create_new :
      (arg : CreateParams) (t : Postgres.Table)
      → select_one (Postgres.has_id arg.todo_id) t ≡ none
      → Keyed t
      → FollowsAt view Keyed (Postgres.create_todo db arg) (Fake.create_todo arg) t
  unfolding Fake.create_todo Postgres.create_todo Postgres.map_todo Postgres.row_of
  create_new arg t e k = record {
    got =
        rw (up Postgres.Statement.creating t, e, assign_new (Postgres.row_of arg) t e)
          (refl, Keyed-append (Postgres.row_of arg) t e k);
  }
