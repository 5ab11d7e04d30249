-- ===== src/Reconciler/Cleanup.antt =====
-- services/control-plane/internal/runs/reconcile.go: how a lease is finished or aborted, and how a run
-- without a lease is finalized.
use harness_forge.Base.{
  ℕ, String, Bool, true, false, not, ◌&&◌, Option, none, some, List, [], ◌∷◌, ◌++◌, ◌==◌,
  if◌then◌else◌, is_some, same_text,
}
use harness_forge.Base.Tables.{exists}
use harness_forge.Base.Json.{Json, bool, text, obj, Fields, done, field, same_key, set_field}
use harness_forge.Schema.{
  queued, running, succeeded, interrupted, same_status, Run, Database, failure, Result, ok, err,
  find_run, find_conversation, update_run,
}
use harness_forge.RunChanges.{record_failure}
use harness_forge.RunCommit.{Format, acknowledge_finalized}
use harness_forge.Cancel.{failure_detail}
use harness_forge.Sandbox.{Stage, starting, executing, awaiting_finalize}
use harness_forge.Reconciler.{
  Trouble, inconsistent, runtime_conflict, no_record, other, nil_pointer, is_trouble, Act, idle,
  stopped, synced, promoted, unpromoted, committed, aborted, session_found, session_missing,
  released, recorded, noted, marked, acknowledged, Reply, good, bad, Action, ExecutionInfo,
  Environment, pure, fail, ◌>>=◌, ◌>>◌, stop_if, attempt, errors_of, call, transact,
}

-- json.Unmarshal into the struct with cleanup_consistency; a member that does not fit is passed over
unfoldable conflict_flag : Fields → Bool → Bool
conflict_flag done flag = flag
conflict_flag (field k (bool b) rest) flag =
    conflict_flag rest (if same_key k "cleanup_consistency" then b else flag)
conflict_flag (field k _ rest) flag = conflict_flag rest flag

-- cleanupConflict
unfoldable pub cleanup_conflict : Option Json → Bool
unfolding conflict_flag
cleanup_conflict (some (obj fields)) = conflict_flag fields false
cleanup_conflict _ = false

-- jsonb_set(COALESCE(error,'{}'),'{key}',value); it fails on a scalar and on an array
unfoldable pub set_error_member : String → Json → Option Json → Option Json
set_error_member key value none = some (obj (set_field key value done))
set_error_member key value (some (obj fields)) = some (obj (set_field key value fields))
set_error_member key value (some _) = none

-- UPDATE runs SET error=jsonb_set(...),updated_at=now() WHERE id=$1
unfoldable pub update_error : String → Json → ℕ → ℕ → Database → Result (Unit {0} × Database)
update_error key value id now db = elim (find_run id db) [
  | none ↦ ok (tt, db)
  | some r ↦ elim (set_error_member key value r.error) [
    | none ↦ err failure
    | some e ↦
        ok (tt, update_run id (λ (r' : Run). record r' { error = some e; updated_at = now }) db)
  ]
]

-- markConsistency
abbrev pub mark_consistency : Environment → ℕ → Action (Unit {0})
mark_consistency env id =
    transact env (update_error "cleanup_consistency" (bool true) id) (λ (_ : Unit {0}). marked) id

abbrev pub without_answer {ℓ} : {A : Type ℓ} → Result (A × Database) → Result (Unit {0} × Database)
without_answer (ok (_, db)) = ok (tt, db)
without_answer (err e) = err e

abbrev pub record_interrupted : Environment → ℕ → Action (Unit {0})
record_interrupted env id =
    transact env
      (λ (now : ℕ) (db : Database).
        without_answer
          (record_failure id interrupted (failure_detail "process_interrupted") now db))
      (λ (_ : Unit {0}). recorded) id

abbrev with_unit : Result Database → Result (Unit {0} × Database)
with_unit (ok db) = ok (tt, db)
with_unit (err e) = err e

abbrev pub acknowledge : Environment → Format → ℕ → Action (Unit {0})
acknowledge env format id =
    transact env (λ (now : ℕ) (db : Database). with_unit (acknowledge_finalized format id now db))
      (λ (_ : Unit {0}). acknowledged) id

-- executionRecord: the lifecycle of the one record of the run
unfoldable pub find_record : ℕ → Option Stage → List ExecutionInfo → Reply (Option Stage)
find_record id seen [] = good seen
find_record id seen (e ∷ rest) =
    let later = λ (stage : Stage). find_record id (some stage) rest in
    let passed = find_record id seen rest in
    if not (e.run_id == id)
    then passed
    else if is_some seen
    then bad (inconsistent ∷ [])
    else elim e.lifecycle [ none ↦ bad (other ∷ []) | some stage ↦ later stage ]

abbrev pub execution_record : List ExecutionInfo → ℕ → Reply (Option Stage)
execution_record records id = find_record id none records

abbrev has_record : ℕ → List ExecutionInfo → Bool
has_record id records = exists (λ (e : ExecutionInfo). e.run_id == id) records

abbrev pub executions_act : ℕ → List ExecutionInfo → Act
executions_act id records = if has_record id records then Act.executing else idle

abbrev pub list_executions : Environment → ℕ → Action (List ExecutionInfo)
list_executions env id = call (env.list_executions id) (executions_act id) id

abbrev pub reply_of {ℓ} : {A : Type ℓ} → Reply A → Action A
reply_of (good a) = pure a
reply_of (bad errors) = fail errors

abbrev pub is_live : Option Stage → Bool
is_live (some starting) = true
is_live (some executing) = true
is_live _ = false

abbrev pub not_awaiting : Option Stage → Bool
not_awaiting none = false
not_awaiting (some awaiting_finalize) = false
not_awaiting (some _) = true

-- finalizationError
abbrev pub finalization_error : List Trouble → List Trouble
finalization_error errors =
    if is_trouble runtime_conflict errors then inconsistent ∷ errors else errors

-- an error of Cancel but ErrNotFound
abbrev pub unless_missing : Reply (Unit {0}) → Action (Unit {0})
unless_missing (good _) = pure tt
unless_missing (bad errors) = if is_trouble no_record errors then pure tt else fail errors

-- stop a live execution and look that it stopped
unfoldable pub stop_execution : Environment → ℕ → Action (Unit {0})
stop_execution env id = do
  reply ← attempt (call (env.cancel id) (λ (_ : Unit {0}). stopped) id)
  unless_missing reply
  records ← list_executions env id
  confirmed ← reply_of (execution_record records id)
  stop_if (not_awaiting confirmed) other

-- a failure of the copy of the workspace is noted, and no more
abbrev pub note_diagnostics : Environment → ℕ → Bool → Reply (Unit {0}) → Action (Unit {0})
note_diagnostics env id true (bad errors) = do
  attempt (
      transact env
        (update_error "diagnostic_sync" (obj (field "code" (text "sync_failed") done)) id)
        (λ (_ : Unit {0}). noted) id)
  pure tt
note_diagnostics env id _ _ = pure tt

unfoldable pub keep_diagnostics : Environment → ℕ → Bool → Action (Unit {0})
keep_diagnostics env id persist = do
  reply ← attempt (call (env.sync_back id) (λ (_ : Unit {0}). synced) id)
  note_diagnostics env id persist reply

-- a conflict of Finalize is kept in the run's row
abbrev pub after_abort : Environment → ℕ → Bool → Reply (Unit {0}) → Action (Unit {0})
after_abort env id persist (good _) = pure tt
after_abort env id persist (bad errors) =
    if is_trouble runtime_conflict errors && persist
    then (do
      mark ← attempt (mark_consistency env id)
      fail (finalization_error errors ++ errors_of mark))
    else fail (finalization_error errors)

unfoldable pub abort_execution : Environment → ℕ → Bool → Action (Unit {0})
abort_execution env id persist = do
  reply ← attempt (call (env.abort id) (λ (_ : Unit {0}). aborted) id)
  after_abort env id persist reply

abbrev pub release_lease : Environment → ℕ → Action (Unit {0})
release_lease env id = call (env.release id) (λ (_ : Unit {0}). released) id

-- abortLease, once the record of the execution is there
unfoldable pub abort_stage : Environment → ℕ → Bool → Bool → Option Stage → Action (Unit {0})
unfolding stop_execution keep_diagnostics abort_execution
abort_stage env id is_running persist stage = do
  (if is_running && persist then record_interrupted env id else pure tt)
  (if is_live stage then stop_execution env id else pure tt)
  keep_diagnostics env id persist
  (if is_some stage then abort_execution env id persist else pure tt)
  release_lease env id

-- abortLease; `is_running` says that the run that is given has status running
unfoldable pub abort_lease : Environment → ℕ → Bool → Bool → Action (Unit {0})
unfolding abort_stage
abort_lease env id is_running persist = do
  records ← list_executions env id
  stage ← reply_of (execution_record records id)
  abort_stage env id is_running persist stage

-- the query whether the conversation has moved to the run's candidate session
unfoldable pub is_promoted : ℕ → ℕ → Database → Result (Bool × Database)
is_promoted id now db = elim (find_run id db) [
  | none ↦ err failure
  | some r ↦ elim (find_conversation r.conversation_id db) [
    | none ↦ err failure
    | some c ↦ elim r.candidate_sdk_session_id [
      | none ↦ ok (false, db)
      | some s ↦ elim c.active_sdk_session_id [
        | none ↦ ok (false, db)
        | some a ↦ ok (same_text s a, db)
      ]
    ]
  ]
]

abbrev pub read_promotion : Environment → ℕ → Action Bool
read_promotion env id =
    transact env (is_promoted id) (λ (b : Bool). if b then promoted else unpromoted) id

abbrev pub after_commit : Reply (Unit {0}) → Action (Unit {0})
after_commit (good _) = pure tt
after_commit (bad errors) = fail (finalization_error errors)

-- Finalize with Commit
unfoldable pub commit_execution : Environment → ℕ → Action (Unit {0})
commit_execution env id = do
  reply ← attempt (call (env.commit id) (λ (_ : Unit {0}). committed) id)
  after_commit reply

-- SessionExists for *run.CandidateSDKSessionID
unfoldable pub find_session : Environment → ℕ → Option String → Action Bool
find_session env id none = fail (nil_pointer ∷ [])
find_session env id (some s) =
    call (env.session_exists s) (λ (b : Bool). if b then session_found else session_missing) id

-- the end of a run that succeeded, but not its session
unfoldable pub abandon : Environment → ℕ → Action (Unit {0})
unfolding abort_lease
abandon env id = do
  reply ← attempt (abort_lease env id false true)
  fail (inconsistent ∷ errors_of reply)

-- the end of a run that succeeded
unfoldable pub finish_succeeded : Environment → Format → Run → Action (Unit {0})
unfolding abandon commit_execution find_session
finish_succeeded env format r = do
  moved ← read_promotion env r.id
  (if moved then pure tt else abandon env r.id)
  commit_execution env r.id
  there ← find_session env r.id r.candidate_sdk_session_id
  stop_if (not there) other
  release_lease env r.id
  acknowledge env format r.id

-- finishLease
unfoldable pub finish_lease : Environment → Format → Run → Action (Unit {0})
unfolding finish_succeeded
finish_lease env format r = do
  stop_if (cleanup_conflict r.error) inconsistent
  if same_status r.status succeeded
      then finish_succeeded env format r
      else if same_status r.status queued
      then fail (inconsistent ∷ [])
      else (do
        abort_lease env r.id (same_status r.status running) true
        acknowledge env format r.id)

-- finalizeAbsent
unfoldable pub finalize_absent : Environment → Format → Run → Action (Unit {0})
finalize_absent env format r = do
  (if same_status r.status running then record_interrupted env r.id else pure tt)
  acknowledge env format r.id
