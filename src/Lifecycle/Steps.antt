-- ===== src/Lifecycle/Steps.antt =====
-- Transactions on runs as steps of the database: creation, claim, and changes of one run. A hard delete
-- of rows (cleanup/purge.go) is no step here.
pub mod Invariant
pub mod Safety
pub mod Outcomes
use harness_forge.Base.{ℕ, String, ◌≡◌, Bool, Option, List}
use harness_forge.Base.Json.{Json}
use harness_forge.Schema.{Status, Phase, Run, Event, Artifact, Database, Result, ok, find_run}
use harness_forge.Events.{append_event_tx}
use harness_forge.Contracts.{RuntimeEvent}
use harness_forge.RunStore.{create_queued_tx, claim_next, begin_sandbox_acquire, attach_sandbox_ref}
use harness_forge.RunChanges.{refresh_source, set_phase, record_runtime_event, record_failure}
use harness_forge.Reconciler.Cleanup.{update_error}
use harness_forge.RunCommit.{Format, commit_products, acknowledge_finalized, cancel_queued}

-- One committed transaction that changes one run.
pub data Change (db db' : Database) : ℕ → Type 0 where
  acquire_begun :
      (id : ℕ) (provider : String) (now : ℕ) (row : Run)
      → begin_sandbox_acquire id provider now db ≡ ok (row, db')
      → Change db db' id
  ref_attached :
      (id : ℕ) (provider ref : String) (now : ℕ) (row : Run)
      → attach_sandbox_ref id provider ref now db ≡ ok (row, db')
      → Change db db' id
  source_refreshed :
      (id now : ℕ) (row : Run) → refresh_source id now db ≡ ok (row, db') → Change db db' id
  phase_set :
      (id : ℕ) (phase : Phase) (now : ℕ) → set_phase id phase now db ≡ ok db' → Change db db' id
  runtime_event_recorded :
      (id : ℕ) (own_id : String) (e : RuntimeEvent) (fresh now : ℕ)
      → record_runtime_event id own_id e fresh now db ≡ ok db'
      → Change db db' id
  event_appended :
      (event row : Event) (id : ℕ)
      → event.run_id ≡ id
      → append_event_tx event db ≡ ok (row, db')
      → Change db db' id
  failure_recorded :
      (id : ℕ) (status : Status) (detail : Json) (now : ℕ) (row : Run)
      → record_failure id status detail now db ≡ ok (row, db')
      → Change db db' id
  products_committed :
      (id project : ℕ) (candidate : String) (records : List Artifact) (now : ℕ)
      → commit_products id project candidate records now db ≡ ok db'
      → Change db db' id
  end_acknowledged :
      (format : Format) (id now : ℕ)
      → acknowledge_finalized format id now db ≡ ok db'
      → Change db db' id
  -- jsonb_set on the error of the run, as in markConsistency and abortLease
  error_updated :
      (key : String) (value : Json) (id now : ℕ)
      → update_error key value id now db ≡ ok (tt, db')
      → Change db db' id
  queued_cancelled :
      (id now : ℕ) (row : Run) → cancel_queued id now db ≡ ok (row, db') → Change db db' id

-- One committed transaction that creates, claims or changes a run.
pub data Step (db db' : Database) : Type 0 where
  created :
      (id conversation trigger : ℕ) (source : Option String) (now : ℕ) (row : Run)
      → create_queued_tx id conversation trigger source now db ≡ ok (row, db')
      → Step db db'
  claimed :
      (locked : ℕ → Bool) (now : ℕ) (row : Option Run)
      → claim_next locked now db ≡ ok (row, db')
      → Step db db'
  changed : (id : ℕ) → Change db db' id → Step db db'

pub data Reach (db : Database) : Database → Type 0 where
  here : Reach db db
  next : {mid db' : Database} → Reach db mid → Step mid db' → Reach db db'
