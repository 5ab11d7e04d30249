-- ===== src/Projects.antt =====
-- services/control-plane/internal/projects: the projects and their input files, in store.go, with
-- the checks on texts of service.go.
pub mod Deletion
use harness_forge.Base.{
  ℕ, String, Bool, true, false, not, ◌&&◌, ◌||◌, Option, none, some, List, [], ◌∷◌, ◌++◌, ltb, leb,
  ◌==◌, if◌then◌else◌, is_some, same_text,
}
use harness_forge.Base.Tables.{find, update, exists, where_rows, order_by}
use harness_forge.Base.Text.{trim_space}
use harness_forge.Schema.{
  Status, queued, running, same_status, Run, Project, InputFile, Conversation, Database, not_found,
  conflict, invalid, failure, Result, ok, err, found, refuse_if, ◌>>=◌, ◌>>◌, find_project,
  find_conversation,
}

abbrev is_live : Project → Bool
is_live p = not (is_some p.deleted_at)

-- SELECT deleted_at IS NOT NULL FROM projects WHERE id=$1 FOR UPDATE, and the checks on its answer
unfoldable pub lock_project : ℕ → Database → Result (Unit {0})
lock_project id db = do p ← found (find_project id db); refuse_if (is_some p.deleted_at) conflict

-- CreateProject of the store
unfoldable create_project :
    ℕ → String → String → String → ℕ → Database → Result (Project × Database)
create_project id name profile version now db =
    let p : Project = record {
      id = id;
      name = name;
      profile_id = profile;
      profile_version = version;
      created_at = now;
      updated_at = now;
      deleted_at = none;
    } in
    if is_some (find_project id db)
    then err failure
    else ok (p, record db { projects = db.projects ++ p ∷ [] })

-- ReadProject
unfoldable read_project : ℕ → Database → Result Project
read_project id db = do
  p ← found (find_project id db)
  refuse_if (is_some p.deleted_at) not_found
  ok p

unfoldable set_name : String → ℕ → Project → Project
set_name name now p = record p { name = name; updated_at = now }

-- RenameProject of the store
unfoldable rename_project : ℕ → String → ℕ → Database → Result (Project × Database)
unfolding set_name
rename_project id name now db = do
  p ← found (find_project id db)
  refuse_if (is_some p.deleted_at) not_found
  ok (
    set_name name now p,
    record db { projects = update (λ (x : Project). x.id) id (set_name name now) db.projects },
  )

-- RenameProject of the service
unfoldable rename_checked : ℕ → String → ℕ → Database → Result (Project × Database)
unfolding rename_project
rename_checked id name now db = do
  refuse_if (same_text (trim_space name) "") invalid
  rename_project id (trim_space name) now db

abbrev project_order : Project → Project → Bool
project_order a b = ltb a.created_at b.created_at || (a.created_at == b.created_at && leb a.id b.id)

-- ListProjects
unfoldable list_projects : Database → List Project
list_projects db = order_by project_order (where_rows is_live db.projects)

-- SaveInput; the created_at of the row is the transaction's time
unfoldable pub save_input : InputFile → ℕ → Database → Result (InputFile × Database)
unfolding lock_project
save_input input now db = do
  lock_project input.project_id db
  refuse_if (is_some (find (λ (f : InputFile). f.id) input.id db.input_files)) failure
  ok (
    record input { created_at = now },
    record db { input_files = db.input_files ++ record input { created_at = now } ∷ [] },
  )

abbrev input_order : InputFile → InputFile → Bool
input_order a b = ltb a.created_at b.created_at || (a.created_at == b.created_at && leb a.id b.id)

-- ListInputs
unfoldable list_inputs : ℕ → Database → Result (List InputFile)
unfolding read_project
list_inputs project db = do
  read_project project db
  ok (order_by input_order (where_rows (λ (f : InputFile). f.project_id == project) db.input_files))

-- status IN ('queued','running') OR finalized_at IS NULL
abbrev pub is_unsettled : Run → Bool
is_unsettled r =
    same_status r.status queued || same_status r.status running || not (is_some r.finalized_at)

abbrev pub in_project : ℕ → Option Conversation → Bool
in_project id none = false
in_project id (some c) = c.project_id == id

-- the join of runs and conversations on the project
abbrev pub protects : ℕ → Database → Run → Bool
protects id db r = in_project id (find_conversation r.conversation_id db) && is_unsettled r

unfoldable pub mark_deleted : ℕ → Project → Project
mark_deleted now p = record p { deleted_at = some now; updated_at = now }

-- DeleteProject
unfoldable pub delete_project : ℕ → ℕ → Database → Result Database
unfolding mark_deleted
delete_project id now db = do
  p ← found (find_project id db)
  if is_some p.deleted_at then ok db else do
    refuse_if (exists (protects id db) db.runs) conflict
    ok (record db { projects = update (λ (x : Project). x.id) id (mark_deleted now) db.projects })
