-- ===== src/RunStore.antt =====
-- services/control-plane/internal/runs/store.go and coordinator_store.go: the transactions on a
-- run. Each is a function on the database; an error leaves no trace, since it rolls back.
use harness_forge.Base.{
  ℕ, String, Bool, false, not, ◌&&◌, ◌||◌, Option, none, some, List, [], ◌∷◌, ◌++◌, ◌==◌, ltb, leb,
  same_text, if◌then◌else◌, is_some, holds,
}
use mathlib.Core.List.{head?}
use harness_forge.Base.Tables.{find, exists, where_rows, order_by}
use harness_forge.Base.Text.{is_blank}
use harness_forge.Schema.{
  queued, running, same_status, preparing, is_phase, Run, Conversation, Project, Message, Database,
  not_found, conflict, failure, Result, ok, found, refuse_if, ◌>>=◌, ◌>>◌, find_run,
  find_conversation, find_project, update_run,
}

-- ORDER BY created_at,id
abbrev pub older : Run → Run → Bool
older a b = ltb a.created_at b.created_at || (a.created_at == b.created_at && leb a.id b.id)

abbrev live_project : Option Project → Bool
live_project none = false
live_project (some p) = not (is_some p.deleted_at)

abbrev live_owner : Database → Option Conversation → Bool
live_owner db none = false
live_owner db (some c) = not (is_some c.deleted_at) && live_project (find_project c.project_id db)

-- conversations c JOIN projects p ... WHERE c.deleted_at IS NULL AND p.deleted_at IS NULL
unfoldable live_conversation : ℕ → Database → Bool
live_conversation id db = live_owner db (find_conversation id db)

abbrev pub new_run : ℕ → ℕ → ℕ → Option String → ℕ → Run
new_run id conversation trigger source now = record {
  id = id;
  conversation_id = conversation;
  trigger_message_id = trigger;
  status = queued;
  phase = none;
  finalized_at = none;
  source_sdk_session_id = source;
  candidate_sdk_session_id = none;
  sandbox_provider = none;
  sandbox_ref = none;
  error = none;
  created_at = now;
  updated_at = now;
  next_event_sequence = 1;
}

-- CreateQueuedTx; a primary key that is taken or a missing parent is an error
unfoldable pub create_queued_tx : ℕ → ℕ → ℕ → Option String → ℕ → Database → Result (Run × Database)
create_queued_tx id conversation trigger source now db = do
  refuse_if
      (is_some (find_run id db)
        || not (is_some (find_conversation conversation db))
        || not (is_some (find (λ (m : Message). m.id) trigger db.messages)))
      failure
  ok (
    new_run id conversation trigger source now,
    record db { runs = db.runs ++ new_run id conversation trigger source now ∷ [] },
  )

-- ListByConversation
unfoldable list_by_conversation : ℕ → Database → Result (List Run)
unfolding live_conversation
list_by_conversation id db = do
  refuse_if (not (live_conversation id db)) not_found
  ok (order_by older (where_rows (λ (r : Run). r.conversation_id == id) db.runs))

-- status <> 'queued' AND finalized_at IS NULL
abbrev pub is_active : Run → Bool
is_active r = not (same_status r.status queued) && not (is_some r.finalized_at)

abbrev pub is_candidate : (ℕ → Bool) → Run → Bool
is_candidate locked r = same_status r.status queued && not (locked r.id)

unfoldable pub claim : ℕ → Run → Run
claim now r = record r { status = running; phase = some preparing; updated_at = now }

-- UPDATE ... RETURNING: the row as it stands after the update
abbrev pub returning : ℕ → Database → Result (Run × Database)
returning id db = do r ← found (find_run id db); ok (r, db)

abbrev claim_first : ℕ → Database → Option Run → Result (Option Run × Database)
claim_first now db none = ok (none, db)
claim_first now db (some r) = do
  (r', db') ← returning r.id (update_run r.id (claim now) db)
  ok (some r', db')

-- ClaimNext; `locked` are the rows that another transaction holds, which SKIP LOCKED passes over
unfoldable pub claim_next : (ℕ → Bool) → ℕ → Database → Result (Option Run × Database)
unfolding claim
claim_next locked now db =
    if exists is_active db.runs
    then ok (none, db)
    else claim_first now db (head? (order_by older (where_rows (is_candidate locked) db.runs)))

-- the WHERE clause of BeginSandboxAcquire
abbrev pub may_acquire : String → Run → Bool
may_acquire provider r =
    holds (same_text provider) r.sandbox_provider
    || (not (is_some r.sandbox_provider)
        && same_status r.status running
        && is_phase preparing r.phase
        && not (is_some r.finalized_at))

abbrev pub set_provider : String → ℕ → Run → Run
set_provider provider now r = record r {
  sandbox_provider = some provider;
  updated_at = if is_some r.sandbox_provider then r.updated_at else now;
}

-- the WHERE clause of AttachSandboxRef
abbrev pub may_attach : String → String → Run → Bool
may_attach provider ref r =
    holds (same_text provider) r.sandbox_provider
    && (holds (same_text ref) r.sandbox_ref
        || (not (is_some r.sandbox_ref)
            && not (same_status r.status queued)
            && not (is_some r.finalized_at)))

abbrev pub set_ref : String → ℕ → Run → Run
set_ref ref now r = record r {
  sandbox_ref = some ref;
  updated_at = if is_some r.sandbox_ref then r.updated_at else now;
}

-- UPDATE ... WHERE id=$1 AND test RETURNING; a row that fails the test is acquisitionConflict
abbrev update_if : ℕ → (Run → Bool) → (Run → Run) → Database → Result (Run × Database)
update_if id test change db = do
  r ← found (find_run id db)
  refuse_if (not (test r)) conflict
  returning id (update_run id change db)

-- BeginSandboxAcquire
unfoldable pub begin_sandbox_acquire : ℕ → String → ℕ → Database → Result (Run × Database)
begin_sandbox_acquire id provider now db = do
  refuse_if (is_blank provider) conflict
  update_if id (may_acquire provider) (set_provider provider now) db

-- AttachSandboxRef
unfoldable pub attach_sandbox_ref : ℕ → String → String → ℕ → Database → Result (Run × Database)
attach_sandbox_ref id provider ref now db = do
  refuse_if (is_blank provider || is_blank ref) conflict
  update_if id (may_attach provider ref) (set_ref ref now) db
