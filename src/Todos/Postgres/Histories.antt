-- ===== src/Todos/Postgres/Histories.antt =====
-- Histories of calls of the service over each of the two stores.
use base_template_server_go.Base.{Bool, List, Option, String, Time, [], none, refl, ◌∷◌, ◌≡◌}
use base_template_server_go.Sql.{select_one}
use base_template_server_go.Follows.{
  Follows, Follows-bind, Follows-lift, Follows-map_err, Follows-pure, FollowsAt, follow,
  follow-bind, follow-lift, follow-map_err, follows_rules,
}
use base_template_server_go.Errors.{text}
use base_template_server_go.Op.{Op, Result, lift, pure, ◌>>=◌}
use base_template_server_go.Authn.{Context}
use base_template_server_go.Todos.{Params, Summary, Todo, Uuid}
use base_template_server_go.Todos.Fake
use base_template_server_go.Todos.Service.{
  Service, authorize, create_todo, delete_todo, find_todo_by_id, internal_error, new_service,
  or_invalid, summary, update_todo,
}
use base_template_server_go.Todos.Laws.{in_memory}
use base_template_server_go.Todos.Postgres
use base_template_server_go.Todos.Postgres.Rows.{Keyed, view}
use base_template_server_go.Todos.Postgres.Agreement.{
  count-Follows, create_new, delete_known, find-Follows, update-Follows,
}

-- A request for the service, with the new id and the reading of the clock that it will use.
pub data Call : Type 0 where
  creates : (req : Params) → (new_id : Uuid) → (now : Time) → Call
  updates : (text : String) → (req : Params) → (now : Time) → Call
  deletes : (text : String) → Call
  finds : (text : String) → Call
  sums_up : Call

pub data Reply : Type 0 where
  one : Todo → Reply
  gone : Reply
  counts : Summary → Reply

module _ {S : Type 0} (s : Service S) (parse : String → Option Uuid) (ctx : Context) where
  unfoldable pub call : Call → Op S Reply
  call (creates req id now) = create_todo s ctx req id now >>= λ t. pure (one t)
  call (updates text req now) = update_todo s parse ctx text req now >>= λ t. pure (one t)
  call (deletes text) = delete_todo s parse ctx text >>= λ _. pure gone
  call (finds text) = find_todo_by_id s parse ctx text >>= λ t. pure (one t)
  call sums_up = summary s ctx >>= λ u. pure (counts u)

  -- The replies to a list of calls, one after the other.
  unfoldable pub replies : List Call → S → List (Result Reply) × S
  unfolding call
  replies [] x = ([], x)
  replies (c ∷ cs) x = let (r, y) = call c x in let (rs, z) = replies cs y in (r ∷ rs, z)

abbrev pub over_postgres : Postgres.Database → Bool → Service Postgres.Table
over_postgres db auth_disabled = new_service (Postgres.postgres_store db) none auth_disabled

-- No call that creates a todo draws an id that a row has already.
abbrev NewId : Call → Postgres.Table → Type 0
NewId (creates req id now) t = select_one (Postgres.has_id id) t ≡ none
NewId _ t = Unit

module _ (db : Postgres.Database) (auth_disabled : Bool) (parse : String → Option Uuid)
    (ctx : Context) where
  abbrev pub FreshRun : List Call → Postgres.Table → Type 0
  FreshRun [] t = Unit
  FreshRun (c ∷ cs) t =
      NewId c t × FreshRun cs (call (over_postgres db auth_disabled) parse ctx c t).1

  abbrev SameReply : Call → Postgres.Table → Type 0
  SameReply c =
      FollowsAt view Keyed (call (over_postgres db auth_disabled) parse ctx c)
        (call (in_memory auth_disabled) parse ctx c)

  module _ (up : (q : Postgres.Statement) (t : Postgres.Table) → db.fails q t ≡ none) where
    abbrev pg : Service Postgres.Table
    pg = over_postgres db auth_disabled

    abbrev mem : Service Fake.FakeStore
    mem = in_memory auth_disabled

    find-Same :
        (text : String)
        → Follows view Keyed
            (find_todo_by_id pg parse ctx text)
            (find_todo_by_id mem parse ctx text)
    unfolding find_todo_by_id new_service Postgres.postgres_store Fake.store authorize
    find-Same text = search (follows_rules, find-Follows db up) depth 10

    update-Same :
        (text : String) (req : Params) (now : Time)
        → Follows view Keyed
            (update_todo pg parse ctx text req now)
            (update_todo mem parse ctx text req now)
    unfolding update_todo new_service Postgres.postgres_store Fake.store authorize
    update-Same text req now = search (follows_rules, update-Follows db up) depth 12

    summary-Same : Follows view Keyed (summary pg ctx) (summary mem ctx)
    unfolding summary new_service Postgres.postgres_store Fake.store authorize
    summary-Same =
        Follows-bind view Keyed (lift (authorize pg ctx)) (lift (authorize mem ctx)) _ _
          (Follows-lift view Keyed _)
          (λ _.
            Follows-map_err view Keyed (λ _. internal_error "failed to summarise todos")
              (Postgres.count_todos db) Fake.count_todos (count-Follows db up))

    create-Same :
        (req : Params) (id : Uuid) (now : Time) (t : Postgres.Table)
        → select_one (Postgres.has_id id) t ≡ none
        → Keyed t
        → FollowsAt view Keyed (create_todo pg ctx req id now) (create_todo mem ctx req id now) t
    unfolding create_todo new_service Postgres.postgres_store Fake.store authorize
    create-Same req id now t e k = follow-lift view Keyed (authorize pg ctx) _ _ t k (λ _.
        follow-lift view Keyed _ _ _ t k (λ _.
          follow-bind view Keyed _ _ (λ todo. pure todo) (λ todo. pure todo) t
            (follow-map_err view Keyed _ _ _ t (create_new db up _ t e k))
            (λ todo. Follows-pure view Keyed todo)))

    delete-Same :
        (text : String) (t : Postgres.Table)
        → Keyed t
        → FollowsAt view Keyed (delete_todo pg parse ctx text) (delete_todo mem parse ctx text) t
    unfolding delete_todo new_service Postgres.postgres_store Fake.store authorize
    delete-Same text t k = follow-lift view Keyed (authorize pg ctx) _ _ t k (λ _.
        follow-lift view Keyed (or_invalid (parse text)) _ _ t k
          (λ id. delete_known db up _ _ id t k))

    ended :
        {A : Type 0} (m : Op Postgres.Table A) (n : Op Fake.FakeStore A) (reply : A → Reply)
        (t : Postgres.Table)
        → FollowsAt view Keyed m n t
        → FollowsAt view Keyed (m >>= λ a. pure (reply a)) (n >>= λ a. pure (reply a)) t
    ended m n reply t h =
        follow-bind view Keyed m n _ _ t h (λ a. Follows-pure view Keyed (reply a))

    call-Same : (c : Call) (t : Postgres.Table) → NewId c t → Keyed t → SameReply c t
    unfolding call
    call-Same (creates req id now) t e k = ended _ _ one t (create-Same req id now t e k)
    call-Same (updates text req now) t e k =
        ended _ _ one t (follow view Keyed _ _ t k (update-Same text req now))
    call-Same (deletes text) t e k = ended _ _ (λ _. gone) t (delete-Same text t k)
    call-Same (finds text) t e k = ended _ _ one t (follow view Keyed _ _ t k (find-Same text))
    call-Same sums_up t e k = ended _ _ counts t (follow view Keyed _ _ t k summary-Same)

    -- While the database answers and new ids are new, a history of calls gets the same replies from
    -- the service over the Postgres table and from the service over the in-memory map, errors
    -- included, and they end with the same todos; the table's ids stay unique. Calls that list all
    -- todos are not among them: their orders differ.
    pub replies_agree :
        (cs : List Call) (t : Postgres.Table)
        → Keyed t
        → FreshRun cs t
        → (replies (in_memory auth_disabled) parse ctx cs (view t) ≡ (
          (replies (over_postgres db auth_disabled) parse ctx cs t).0,
          view (replies (over_postgres db auth_disabled) parse ctx cs t).1,
        ))
          × Keyed (replies (over_postgres db auth_disabled) parse ctx cs t).1
    unfolding replies
    replies_agree [] t k f = (refl, k)
    replies_agree (c ∷ cs) t k (new', f) =
        let (e, q) = (call-Same c t new' k).got in
        let (d, o) = replies_agree cs (call (over_postgres db auth_disabled) parse ctx c t).1 q f in
        (rw (e, d) refl, o)
