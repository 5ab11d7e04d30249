-- ===== src/RunChanges.antt =====
-- services/control-plane/internal/runs/coordinator_store.go: the state changes of a running run.
-- `now` is the time of the transaction. A statement that fails is not modelled: it rolls back.
use harness_forge.Base.{
  ℕ, pos, String, Bool, true, false, not, ◌&&◌, ◌||◌, Option, none, some, [], ◌∷◌, ◌++◌, ◌==◌, ltb,
  same_text, same_int, if◌then◌else◌, is_some, holds,
}
use harness_forge.Base.Tables.{find, exists}
use harness_forge.Base.Text.{concat}
use harness_forge.Base.Json.{Json, text, obj, done, field, document}
use harness_forge.Schema.{
  Status, running, failed, cancelled, interrupted, same_status, Phase, preparing, agent, publishing,
  phase_text, same_phase, is_phase, Run, Event, Message, Role, assistant, user, Database, not_found,
  conflict, failure, Result, ok, err, found, refuse_if, ◌>>=◌, ◌>>◌, find_run, find_conversation,
  find_project, update_run,
}
use harness_forge.State.{terminal, advance}
use harness_forge.Events.{append_event_tx, max_int64, is_replay}
use harness_forge.Contracts.{
  Payload, phase_changed, assistant_message, agent_failed, RuntimeEvent, marshal_payload,
}
use harness_forge.RunStore.{returning}

pub record RunContext : Type 0 where
  pub project_id : ℕ
  pub profile_id : String
  pub profile_version : String
  pub prompt : String
  pub active_session : Option String

abbrev is_user : Role → Bool
is_user user = true
is_user assistant = false

-- LoadContext: the joins of run, trigger message, conversation and project
unfoldable load_context : ℕ → Database → Result RunContext
load_context id db = do
  r ← found (find_run id db)
  m ← found (find (λ (m : Message). m.id) r.trigger_message_id db.messages)
  refuse_if (not (m.conversation_id == r.conversation_id && is_user m.role)) not_found
  c ← found (find_conversation r.conversation_id db)
  p ← found (find_project c.project_id db)
  refuse_if (is_some c.deleted_at || is_some p.deleted_at) not_found
  ok (record {
    project_id = p.id;
    profile_id = p.profile_id;
    profile_version = p.profile_version;
    prompt = m.content;
    active_session = c.active_sdk_session_id;
  })

abbrev is_preparing : Run → Bool
is_preparing r =
    same_status r.status running && is_phase preparing r.phase && not (is_some r.finalized_at)

-- RefreshSource
unfoldable pub refresh_source : ℕ → ℕ → Database → Result (Run × Database)
refresh_source id now db = do
  r ← found (find_run id db)
  c ← found (find_conversation r.conversation_id db)
  p ← found (find_project c.project_id db)
  refuse_if (is_some c.deleted_at || is_some p.deleted_at || not (is_preparing r)) not_found
  returning id (
      update_run id
        (λ (r' : Run). record r' {
          source_sdk_session_id = c.active_sdk_session_id;
          updated_at = now;
        })
        db)

-- Append an event, and keep only the database.
abbrev pub log_event : Event → Database → Result Database
log_event event db = do (_, db') ← append_event_tx event db; ok db'

abbrev pub phase_event : ℕ → Phase → ℕ → Event
phase_event id phase now = record {
  run_id = id;
  sequence = 0;
  runtime_sequence = none;
  dedupe_key = some (concat "phase:" (phase_text phase));
  kind = "phase.changed";
  payload = document (obj (field "phase" (text (phase_text phase)) done));
  occurred_at = now;
}

unfoldable pub set_phase_of : Phase → ℕ → Run → Run
set_phase_of phase now r = record r { phase = some phase; updated_at = now }

-- if *r.Phase != phase { Advance(r, phase) }
abbrev pub check_advance : Run → Phase → ℕ → Result (Unit {0})
check_advance r phase now =
    if is_phase phase r.phase then ok tt else (do advance r phase now; ok tt)

-- SetPhase
unfoldable pub set_phase : ℕ → Phase → ℕ → Database → Result Database
unfolding set_phase_of
set_phase id phase now db = do
  r ← found (find_run id db)
  refuse_if (not (same_status r.status running) || not (is_some r.phase) || is_some r.finalized_at)
      conflict
  check_advance r phase now
  log_event (phase_event id phase now) (update_run id (set_phase_of phase now) db)

-- Phase(p.Phase): a phase by its text; any other text is no phase of a run
unfoldable pub phase_of : String → Option Phase
phase_of s =
    if same_text s "preparing"
    then some preparing
    else if same_text s "agent"
    then some agent
    else if same_text s "publishing"
    then some publishing
    else none

-- the phase change of a Runtime event; an unknown phase differs from the run's, and `Advance` refuses it
abbrev pub apply_phase : ℕ → Run → Option Phase → ℕ → Database → Result Database
apply_phase id r none now db = err conflict
apply_phase id r (some p) now db = do
  refuse_if (not (is_some r.phase)) conflict
  check_advance r p now
  refuse_if (same_phase p publishing) conflict
  ok (update_run id (set_phase_of p now) db)

abbrev pub before_event : ℕ → Run → Payload → ℕ → Database → Result Database
before_event id r (phase_changed p) now db = apply_phase id r (phase_of p) now db
before_event id r _ now db = ok db

abbrev is_reply : ℕ → ℕ → Message → Bool
is_reply id seq m =
    not (is_user m.role)
    && holds (λ (n : ℕ). n == id) m.run_id
    && holds (same_int (pos seq)) m.runtime_sequence

-- INSERT INTO messages ... ON CONFLICT DO NOTHING; `fresh` is the new UUID
unfoldable pub insert_reply : ℕ → ℕ → Run → String → ℕ → ℕ → Database → Result Database
insert_reply id seq r content fresh now db =
    if exists (is_reply id seq) db.messages
    then ok db
    else if is_some (find (λ (m : Message). m.id) fresh db.messages)
    then err failure
    else ok (record db {
      messages =
          db.messages
          ++ record {
            id = fresh;
            conversation_id = r.conversation_id;
            role = assistant;
            content = content;
            created_at = now;
            run_id = some id;
            runtime_sequence = some (pos seq);
          }
            ∷ [];
    })

unfoldable pub set_failed : Json → ℕ → Run → Run
set_failed detail now r = record r { status = failed; error = some detail; updated_at = now }

unfoldable pub after_event : ℕ → ℕ → Run → Payload → ℕ → ℕ → Database → Result Database
unfolding insert_reply set_failed
after_event id seq r (assistant_message content) fresh now db =
    insert_reply id seq r content fresh now db
after_event id seq r (agent_failed code message retryable) fresh now db =
    ok (update_run id (set_failed (marshal_payload (agent_failed code message retryable)) now) db)
after_event id seq r _ fresh now db = ok db

abbrev pub runtime_row : ℕ → RuntimeEvent → Event
runtime_row id e = record {
  run_id = id;
  sequence = 0;
  runtime_sequence = some (pos e.sequence);
  dedupe_key = none;
  kind = e.kind;
  payload = document (marshal_payload e.payload);
  occurred_at = e.occurred_at;
}

unfoldable pub apply_event : ℕ → RuntimeEvent → Run → ℕ → ℕ → Database → Result Database
unfolding after_event
apply_event id e r fresh now db = do
  db₁ ← before_event id r e.payload now db
  db₂ ← log_event (runtime_row id e) db₁
  after_event id e.sequence r e.payload fresh now db₂

-- RecordRuntimeEvent; `own_id` is id.String(). A run that is not running takes no Runtime event,
-- and a sequence that is recorded is a replay.
unfoldable pub record_runtime_event : ℕ → String → RuntimeEvent → ℕ → ℕ → Database → Result Database
unfolding apply_event
record_runtime_event id own_id e fresh now db = do
  refuse_if (not (same_text e.run_id own_id) || ltb max_int64 e.sequence) conflict
  r ← found (find_run id db)
  if not (same_status r.status running) || exists (is_replay id (pos e.sequence)) db.run_events
      then ok db
      else apply_event id e r fresh now db

unfoldable pub set_outcome : Status → Json → ℕ → Run → Run
set_outcome status detail now r = record r {
  status = status;
  error = some detail;
  updated_at = now;
}

abbrev pub is_failure : Status → Bool
is_failure failed = true
is_failure cancelled = true
is_failure interrupted = true
is_failure _ = false

unfoldable pub fail_run : ℕ → Run → Status → Json → ℕ → Database → Result (Run × Database)
unfolding set_outcome
fail_run id r status detail now db = if terminal r.status then ok (r, db) else do
  refuse_if
      (not (same_status r.status running)
        || is_some r.finalized_at
        || (same_status status cancelled && is_phase publishing r.phase))
      conflict
  returning id (update_run id (set_outcome status detail now) db)

-- RecordFailure
unfoldable pub record_failure : ℕ → Status → Json → ℕ → Database → Result (Run × Database)
unfolding fail_run
record_failure id status detail now db = do
  refuse_if (not (is_failure status)) conflict
  r ← found (find_run id db)
  fail_run id r status detail now db
