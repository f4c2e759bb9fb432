-- ===== src/Todos/Laws.antt =====
-- The service over the in-memory store, against a partial map from ids to todos.
use base_template_server_go.Base.{
  Bool, Option, String, Time, arith, count_if, count_if-not, false, if◌then◌else◌, length, nat_eq,
  none, not, refl, some, string_eq, ◌+◌, ◌-◌, ◌==◌, ◌≡◌,
}
use base_template_server_go.Table.{find, find-assign, find-remove}
use base_template_server_go.Errors.{text}
use base_template_server_go.Op.{Result, err, ok}
use base_template_server_go.Authn.{Context, from_context}
use base_template_server_go.Todos.{Params, Summary, Todo, Uuid}
use base_template_server_go.Todos.Fake
use base_template_server_go.Todos.Service.{
  Service, authorize, create_todo, delete_todo, denied, find_todo_by_id, list_all_todos,
  new_service, summary, todo_missing, update_todo,
}

authorize-eq-denied :
    {S : Type 0} (s : Service S) (ctx : Context)
    → s.auth_disabled ≡ false
    → (from_context ctx).0.user_id ≡ ""
    → authorize s ctx ≡ err denied
unfolding authorize
authorize-eq-denied s ctx on e = rw (on, e) refl

-- Every operation of the service is refused, and leaves the state alone.
abbrev pub Closed : {S : Type 0} → Service S → Context → S → Type 0
Closed s ctx x =
    ((req : Params) (id : Uuid) (now : Time) → create_todo s ctx req id now x ≡ (err denied, x))
    × ((parse : String → Option Uuid) (text : String) (req : Params) (now : Time)
        → update_todo s parse ctx text req now x ≡ (err denied, x))
    × ((parse : String → Option Uuid) (text : String)
        → delete_todo s parse ctx text x ≡ (err denied, x))
    × ((parse : String → Option Uuid) (text : String)
        → find_todo_by_id s parse ctx text x ≡ (err denied, x))
    × (list_all_todos s ctx x ≡ (err denied, x))
    × (summary s ctx x ≡ (err denied, x))

-- With authentication on, a request whose principal has no user id, or that has no principal, gets
-- permission denied from each of the six operations, which do nothing else: nothing is written, no
-- event is published, and the id and the label are not looked at.
pub unnamed-Closed :
    {S : Type 0} (s : Service S) (ctx : Context) (x : S)
    → s.auth_disabled ≡ false
    → (from_context ctx).0.user_id ≡ ""
    → Closed s ctx x
unfolding create_todo update_todo delete_todo find_todo_by_id list_all_todos summary
unnamed-Closed s ctx x on e =
    let no_entry = authorize-eq-denied s ctx on e in
    (
      (λ req id now. rw no_entry refl),
      (λ parse text req now. rw no_entry refl),
      (λ parse text. rw no_entry refl),
      (λ parse text. rw no_entry refl),
      rw no_entry refl,
      rw no_entry refl,
    )

abbrev pub Entered : {S : Type 0} → Service S → Context → Type 0
Entered s ctx = authorize s ctx ≡ ok tt

-- The rows of the map after one key got a new value.
abbrev pub Put : Fake.FakeStore → Uuid → Option Todo → Fake.FakeStore → Type 0
Put f id v g = (j : Uuid) → find j g ≡ (if id == j then v else find j f)

abbrev pub in_memory : Bool → Service Fake.FakeStore
in_memory auth_disabled = new_service Fake.store none auth_disabled

-- The todo that a valid create request stands for.
abbrev pub requested : Params → Uuid → Time → Todo
requested req id now = record {
  todo_id = id;
  created_at = now;
  updated_at = now;
  label = req.label;
  completed = req.completed;
}

abbrev pub Update :
    Fake.FakeStore → Uuid → Params → Time → Option Todo → Result Todo → Fake.FakeStore → Type 0
Update f id req now none r g = (r ≡ err todo_missing) × (g ≡ f)
Update f id req now (some t) r g =
    let changed : Todo = record t {
      label = req.label;
      completed = req.completed;
      updated_at = now;
    } in
    (r ≡ ok changed) × Put f id (some changed) g

abbrev pub Deletion :
    Fake.FakeStore → Uuid → Option Todo → Result (Unit {0}) → Fake.FakeStore → Type 0
Deletion f id none r g = (r ≡ err todo_missing) × (g ≡ f)
Deletion f id (some t) r g = (r ≡ ok tt) × Put f id none g

module _ (auth_disabled : Bool) (ctx : Context)
    (entered : Entered (in_memory auth_disabled) ctx) where
  -- An authorised create request with a label returns the todo and stores it under the new id; all
  -- other ids keep their rows.
  pub create_todo-Put :
      (req : Params) (id : Uuid) (now : Time) (f : Fake.FakeStore)
      → (req.label == "") ≡ false
      → ((create_todo (in_memory auth_disabled) ctx req id now f).0 ≡ ok (requested req id now))
        × Put f id
            (some (requested req id now))
            (create_todo (in_memory auth_disabled) ctx req id now f).1
  unfolding create_todo new_service Fake.store Fake.create_todo
  create_todo-Put req id now f labelled =
      rw (entered, labelled) (refl, find-assign id (requested req id now) f)

  -- An authorised update with a label and a well-formed id: an id without a row is reported as not
  -- found and nothing changes; otherwise the row's label, its mark and its time of update are
  -- replaced, its id and time of creation stay, and all other ids keep their rows.
  pub update_todo-Update :
      (parse : String → Option Uuid) (text : String) (id : Uuid) (req : Params) (now : Time)
      (f : Fake.FakeStore)
      → parse text ≡ some id
      → (req.label == "") ≡ false
      → Update f id req now
          (find id f)
          (update_todo (in_memory auth_disabled) parse ctx text req now f).0
          (update_todo (in_memory auth_disabled) parse ctx text req now f).1
  unfolding update_todo new_service Fake.store Fake.update_todo Fake.or_no_rows
  update_todo-Update parse text id req now f p labelled = go (find id f) refl
    where
      go :
          (o : Option Todo)
          → find id f ≡ o
          → Update f id req now o
              (update_todo (in_memory auth_disabled) parse ctx text req now f).0
              (update_todo (in_memory auth_disabled) parse ctx text req now f).1
      go none e = rw (entered, labelled, p, e) (refl, refl)
      go (some t) e = rw (entered, labelled, p, e) (refl, λ j. find-assign id _ f j)

  -- An authorised deletion with a well-formed id: an id without a row is reported as not found and
  -- nothing changes; otherwise the row is gone afterwards and all other ids keep theirs.
  pub delete_todo-Deletion :
      (parse : String → Option Uuid) (text : String) (id : Uuid) (f : Fake.FakeStore)
      → parse text ≡ some id
      → Deletion f id
          (find id f)
          (delete_todo (in_memory auth_disabled) parse ctx text f).0
          (delete_todo (in_memory auth_disabled) parse ctx text f).1
  unfolding delete_todo new_service Fake.store Fake.delete_todo Fake.find_todo_by_id Fake.or_no_rows
  delete_todo-Deletion parse text id f p = go (find id f) refl
    where
      go :
          (o : Option Todo)
          → find id f ≡ o
          → Deletion f id o
              (delete_todo (in_memory auth_disabled) parse ctx text f).0
              (delete_todo (in_memory auth_disabled) parse ctx text f).1
      go none e = rw (entered, p, e) (refl, refl)
      go (some t) e = rw (entered, p, e, e) (refl, λ j. find-remove id f j)

  -- An authorised summary counts every stored todo once: the total is the number of rows, and the
  -- completed and the outstanding ones are counted by their marks and add up to it.
  summary-counts :
      (f : Fake.FakeStore)
      → (u : Summary) × ((summary (in_memory auth_disabled) ctx f) ≡ (ok u, f))
        × (u.total ≡ length f)
        × (u.completed ≡ count_if (λ (id, t). t.completed) f)
        × (u.outstanding ≡ count_if (λ (id, t). not t.completed) f)
        × (u.completed + u.outstanding ≡ u.total)
  unfolding summary new_service Fake.store Fake.count_todos
  summary-counts f =
      let split = count_if-not (λ ((id, t) : Uuid × Todo). t.completed) f in
      let c = count_if (λ ((id, t) : Uuid × Todo). t.completed) f in
      let u : Summary = record { total = length f; completed = c; outstanding = length f - c } in
      (u, rw entered refl, refl, refl, omega (arith, split), omega (arith, split))
