-- ===== src/RunCommit.antt =====
-- services/control-plane/internal/runs/coordinator_store.go and cancel.go: the transactions that
-- publish products, acknowledge the end of a run, and cancel a queued run.
pub mod Promotion
pub mod Published
use harness_forge.Base.{
  ℕ, String, Bool, true, false, not, ◌&&◌, ◌||◌, Option, none, some, List, [], ◌∷◌, ◌++◌, ◌==◌, ltb,
  leb, same_text, if◌then◌else◌, is_some, holds,
}
use harness_forge.Base.Tables.{find, exists, where_rows, order_by}
use harness_forge.Base.Text.{concat}
use harness_forge.Base.Json.{Json, text, bool, obj, Fields, done, field, document}
use harness_forge.Schema.{
  Status, queued, running, succeeded, cancelled, status_text, same_status, publishing, is_phase,
  Run, Event, Conversation, Project, Artifact, Database, Error, conflict, failure, Result, ok, err,
  found, refuse_if, ◌>>=◌, ◌>>◌, find_run, find_conversation, find_project, update_run,
  update_conversation,
}
use harness_forge.State.{terminal, finish, Cleanup, absent, unset}
use harness_forge.RunStore.{returning}
use harness_forge.RunChanges.{log_event}

-- How identifiers and times are written: uuid.UUID.String of github.com/google/uuid, and the JSON
-- form of a time.Time.
pub record Format : Type 0 where
  pub uuid_text : ℕ → String
  pub time_text : ℕ → String

-- a query that finds no row, in a place where that is no domain error
abbrev pub scanned {ℓ} : {A : Type ℓ} → Option A → Result A
scanned none = err failure
scanned (some a) = ok a

-- (active == nil) == (source == nil) && (active == nil || *active == *source)
abbrev pub same_session : Option String → Option String → Bool
same_session none none = true
same_session (some a) (some b) = same_text a b
same_session _ _ = false

-- CHECK (type IN ('html','markdown','image','data')) of the table
abbrev pub is_stored_type : String → Bool
is_stored_type t =
    same_text t "html" || same_text t "markdown" || same_text t "image" || same_text t "data"

-- InsertTx of internal/artifacts/store.go: one INSERT for each record, its created_at is now()
unfoldable pub insert_artifacts : List Artifact → ℕ → Database → Result Database
insert_artifacts [] now db = ok db
insert_artifacts (a ∷ rest) now db =
    let inserted =
      insert_artifacts rest now
        (record db { artifacts = db.artifacts ++ record a { created_at = now } ∷ [] }) in
    if is_some (find (λ (x : Artifact). x.id) a.id db.artifacts)
      || not (is_some (find_run a.run_id db))
      || not (is_stored_type a.kind)
    then err failure
    else inserted

abbrev pub foreign : ℕ → Artifact → Bool
foreign id a = not (a.run_id == id)

unfoldable pub promote : String → ℕ → Conversation → Conversation
promote candidate now c = record c { active_sdk_session_id = some candidate; updated_at = now }

unfoldable pub succeed : String → ℕ → Run → Run
succeed candidate now r = record r {
  candidate_sdk_session_id = some candidate;
  status = succeeded;
  updated_at = now;
}

-- CommitProducts
unfoldable pub commit_products : ℕ → ℕ → String → List Artifact → ℕ → Database → Result Database
commit_products id project candidate records now db = do
  refuse_if (same_text candidate "") conflict
  p ← scanned (find_project project db)
  refuse_if (is_some p.deleted_at) conflict
  owner ← scanned (find_run id db)
  c ← scanned (find_conversation owner.conversation_id db)
  refuse_if (not (c.project_id == project)) failure
  refuse_if (is_some c.deleted_at) conflict
  r ← found (find_run id db)
  refuse_if
      (not (same_status r.status running)
        || not (is_phase publishing r.phase)
        || is_some r.finalized_at)
      conflict
  refuse_if (not (same_session c.active_sdk_session_id r.source_sdk_session_id)) conflict
  refuse_if (exists (foreign id) records) conflict
  db₁ ← insert_artifacts records now db
  ok (update_run id (succeed candidate now) (update_conversation c.id (promote candidate now) db₁))

-- json.Marshal of an Artifact
unfoldable artifact_json : Format → Artifact → Json
artifact_json format a = obj (
    field "id" (text (format.uuid_text a.id)) (
      field "run_id" (text (format.uuid_text a.run_id)) (
        field "title" (text a.title) (
          field "type" (text a.kind) (
            field "entry_path" (text a.entry_path) (
              field "is_primary" (bool a.is_primary)
                (field "created_at" (text (format.time_text a.created_at)) done)))))))

unfoldable pub artifact_event : Format → ℕ → ℕ → Artifact → Event
unfolding artifact_json
artifact_event format id now a = record {
  run_id = id;
  sequence = 0;
  runtime_sequence = none;
  dedupe_key = some (concat "artifact:" (concat (format.uuid_text a.id) ":published"));
  kind = "artifact.published";
  payload = document (artifact_json format a);
  occurred_at = now;
}

unfoldable pub log_artifacts : Format → ℕ → ℕ → List Artifact → Database → Result Database
log_artifacts format id now [] db = ok db
log_artifacts format id now (a ∷ rest) db = do
  db₁ ← log_event (artifact_event format id now a) db
  log_artifacts format id now rest db₁

abbrev pub terminal_event : ℕ → Status → ℕ → Event
terminal_event id status now = record {
  run_id = id;
  sequence = 0;
  runtime_sequence = none;
  dedupe_key = some (concat "terminal:" (status_text status));
  kind = concat "run." (status_text status);
  payload = document (obj done);
  occurred_at = now;
}

abbrev artifact_order : Artifact → Artifact → Bool
artifact_order a b =
    ltb a.created_at b.created_at || (a.created_at == b.created_at && leb a.id b.id)

-- SELECT ... FROM artifacts WHERE run_id=$1 ORDER BY created_at,id
unfoldable pub products : ℕ → Database → List Artifact
products id db =
    order_by artifact_order (where_rows (λ (a : Artifact). a.run_id == id) db.artifacts)

unfoldable pub stamp : ℕ → Run → Run
stamp now r = record r { finalized_at = some now; updated_at = now }

-- the public events of a run that was just finalized
unfoldable pub announce : Format → ℕ → Status → ℕ → Database → Result Database
announce format id status now db = do
  db₁ ←
      (if same_status status succeeded
        then log_artifacts format id now (products id db) db
        else ok db)
  log_event (terminal_event id status now) db₁

-- AcknowledgeFinalized
unfoldable pub acknowledge_finalized : Format → ℕ → ℕ → Database → Result Database
acknowledge_finalized format id now db = do
  r ← found (find_run id db)
  refuse_if (not (terminal r.status)) conflict
  if is_some r.finalized_at
      then ok db
      else announce format id r.status now (update_run id (stamp now) db)

abbrev pub nothing_acquired : Cleanup
nothing_acquired = record {
  lease = absent;
  runtime = absent;
  disposition = unset;
  released = false;
}

-- SET status=$2,finalized_at=$3,updated_at=$4
unfoldable pub copy_outcome : Run → Run → Run
copy_outcome from r = record r {
  status = from.status;
  finalized_at = from.finalized_at;
  updated_at = from.updated_at;
}

unfoldable pub cancel_row : ℕ → Run → ℕ → Database → Result (Run × Database)
unfolding copy_outcome
cancel_row id r now db = do
  refuse_if (not (same_status r.status queued)) conflict
  done' ← finish r cancelled nothing_acquired now
  (row, db₁) ← returning id (update_run id (copy_outcome done') db)
  db₂ ← log_event (record (terminal_event id cancelled now) { occurred_at = row.updated_at }) db₁
  ok (row, db₂)

-- CancelQueued
unfoldable pub cancel_queued : ℕ → ℕ → Database → Result (Run × Database)
unfolding cancel_row
cancel_queued id now db = do
  r ← found (find_run id db)
  if same_status r.status cancelled && is_some r.finalized_at
      then ok (r, db)
      else cancel_row id r now db
