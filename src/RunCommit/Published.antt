-- ===== src/RunCommit/Published.antt =====
-- CommitProducts of services/control-plane/internal/runs/coordinator_store.go: lemmas on the rows after it.
use harness_forge.Base.{ℕ, String, ◌≡◌, none, some}
use harness_forge.Schema.{succeeded, Run, Conversation, Database, find_run, find_conversation}

-- What a commit leaves behind of the run and of its conversation.
pub record IsPublished (id : ℕ) (candidate : String) (now : ℕ) (r : Run) (c : Conversation)
    (db : Database) : Type 0 where
  pub run : Run
  pub owner : Conversation
  pub known : find_run id db ≡ some run
  pub home : find_conversation r.conversation_id db ≡ some owner
  pub status : run.status ≡ succeeded
  pub session : run.candidate_sdk_session_id ≡ some candidate
  pub pending : (run.finalized_at ≡ none) × (run.phase ≡ r.phase)
  pub source : run.source_sdk_session_id ≡ r.source_sdk_session_id
  pub moved : owner.active_sdk_session_id ≡ some candidate
  pub kept : (owner.title ≡ c.title) × (owner.project_id ≡ c.project_id) × (owner.deleted_at ≡ none)
  pub stamped : (run.updated_at ≡ now) × (owner.updated_at ≡ now)
