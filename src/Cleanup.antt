-- ===== src/Cleanup.antt =====
-- services/control-plane/internal/cleanup/purge.go: the hard delete of a project or a conversation
-- that was deleted before. A DELETE that would leave a foreign key without its row fails.
pub mod Removal
pub mod Orphans
pub mod Spared
use harness_forge.Base.{
  ℕ, Bool, true, false, not, ◌&&◌, ◌||◌, Option, none, some, List, ◌==◌, if◌then◌else◌, is_some,
  holds,
}
use harness_forge.Base.Tables.{find, exists, where_rows, update_where}
use harness_forge.Schema.{
  Run, Event, Project, InputFile, Conversation, Message, Artifact, Database, failure, Result, ok,
  err, refuse_if, ◌>>=◌, ◌>>◌, find_project, find_conversation, find_run,
}
use harness_forge.RunCommit.{scanned}
use harness_forge.Projects.{is_unsettled, in_project}

-- purgeRoot, by its kind
pub data Root : Type 0 where
  project_root conversation_root : ℕ → Root

-- conversation_id IN (SELECT id FROM conversations WHERE project_id=$1), or conversation_id=$1
abbrev pub owns : Root → List Conversation → ℕ → Bool
owns (project_root p) conversations c =
    in_project p (find (λ (x : Conversation). x.id) c conversations)
owns (conversation_root k) conversations c = c == k

abbrev owns_run : Root → Database → Option Run → Bool
owns_run root db none = false
owns_run root db (some r) = owns root db.conversations r.conversation_id

-- UPDATE messages SET run_id=NULL WHERE ...
unfoldable pub clear_runs : Root → Database → Database
clear_runs root db = record db {
  messages =
      update_where (λ (m : Message). owns root db.conversations m.conversation_id)
        (λ (m : Message). record m { run_id = none }) db.messages;
}

-- DELETE FROM artifacts, and DELETE FROM run_events: no key refers to them
unfoldable pub delete_products : Root → Database → Database
delete_products root db = record db {
  artifacts =
      where_rows (λ (a : Artifact). not (owns_run root db (find_run a.run_id db))) db.artifacts;
  run_events =
      where_rows (λ (e : Event). not (owns_run root db (find_run e.run_id db))) db.run_events;
}

-- DELETE FROM runs
unfoldable pub delete_runs : Root → Database → Result Database
delete_runs root db = do
  refuse_if
      (exists (λ (a : Artifact). owns_run root db (find_run a.run_id db)) db.artifacts
        || exists (λ (e : Event). owns_run root db (find_run e.run_id db)) db.run_events
        || exists (λ (m : Message). holds (λ (k : ℕ). owns_run root db (find_run k db)) m.run_id)
            db.messages)
      failure
  ok (record db {
    runs = where_rows (λ (r : Run). not (owns root db.conversations r.conversation_id)) db.runs;
  })

abbrev owns_message : Root → Database → Option Message → Bool
owns_message root db none = false
owns_message root db (some m) = owns root db.conversations m.conversation_id

-- DELETE FROM messages
unfoldable pub delete_messages : Root → Database → Result Database
delete_messages root db = do
  refuse_if
      (exists
        (λ (r : Run).
          owns_message root db (find (λ (m : Message). m.id) r.trigger_message_id db.messages))
        db.runs)
      failure
  ok (record db {
    messages =
        where_rows (λ (m : Message). not (owns root db.conversations m.conversation_id))
          db.messages;
  })

abbrev pub is_in : Root → Conversation → Bool
is_in (project_root p) c = c.project_id == p
is_in (conversation_root k) c = c.id == k

-- DELETE FROM conversations
unfoldable pub delete_conversations : Root → Database → Result Database
delete_conversations root db = do
  refuse_if
      (exists (λ (r : Run). owns root db.conversations r.conversation_id) db.runs
        || exists (λ (m : Message). owns root db.conversations m.conversation_id) db.messages)
      failure
  ok (record db {
    conversations = where_rows (λ (c : Conversation). not (is_in root c)) db.conversations;
  })

-- DELETE FROM input_files and DELETE FROM projects, which only a project root has
unfoldable pub delete_root : Root → Database → Result Database
delete_root (conversation_root k) db = ok db
delete_root (project_root p) db = do
  refuse_if (exists (λ (c : Conversation). c.project_id == p) db.conversations) failure
  ok (record db {
    input_files = where_rows (λ (f : InputFile). not (f.project_id == p)) db.input_files;
    projects = where_rows (λ (x : Project). not (x.id == p)) db.projects;
  })

abbrev pub is_protected : Root → Database → Bool
is_protected root db =
    exists (λ (r : Run). owns root db.conversations r.conversation_id && is_unsettled r) db.runs

-- lockPurgeProject and lockPurgeConversation
unfoldable pub lock_root : Root → Database → Result (Unit {0})
lock_root (project_root p) db = do
  x ← scanned (find_project p db)
  refuse_if (not (is_some x.deleted_at)) failure
  refuse_if (is_protected (project_root p) db) failure
lock_root (conversation_root k) db = do
  c ← scanned (find_conversation k db)
  x ← scanned (find_project c.project_id db)
  refuse_if (not (is_some c.deleted_at) || is_some x.deleted_at) failure
  refuse_if (is_protected (conversation_root k) db) failure

-- hardDelete
unfoldable pub hard_delete : Root → Database → Result Database
hard_delete root db = do
  lock_root root db
  db₁ ← delete_runs root (delete_products root (clear_runs root db))
  db₂ ← delete_messages root db₁
  db₃ ← delete_conversations root db₂
  delete_root root db₃
