-- ===== src/Cancel/Recorded.antt =====
-- Coordinator.Cancel of services/control-plane/internal/runs/coordinator.go: lemmas on what is recorded.
use harness_forge.Base.{ℕ, Bool, ◌≡◌, inl, inr, some, arith, Option-cases}
use harness_forge.Base.Json.{Json}
use harness_forge.Schema.{Status, cancelled, Run, Database, Result, ok, Result-cases, find_run}
use harness_forge.RunChanges.{record_failure}
use harness_forge.Durable.{
  World, Connection, unreachable, commit_refused, acknowledgement_lost, healthy, change, commit,
  finish_tx,
}
use harness_forge.Cancel.{read, confirm, coordinator_cancel, failure_detail}

-- the row that RecordFailure answers with is the row in its database
pub record_failure_answer :
    (id : ℕ) (status : Status) (detail : Json) (now : ℕ) (db db' : Database) (row : Run)
    → record_failure id status detail now db ≡ ok (row, db')
    → find_run id db' ≡ some row
unfolding record_failure
record_failure_answer id status detail now db db' row h = elim (Option-cases (find_run id db)) [
  | inl missing ↦ absurd (ground arith)
  | inr (r, known) ↦ ground arith
]

pub change_answer :
    (conn : Connection) (id : ℕ) (tx : Database → Result (Run × Database)) (w : World) (r : Run)
    → (change conn id tx w).0 ≡ ok r
    → tx w.db ≡ ok (r, (change conn id tx w).1.db)
unfolding change finish_tx commit
change_answer unreachable id tx w r h = ground arith
change_answer commit_refused id tx w r h = ground arith
change_answer acknowledgement_lost id tx w r h = ground arith
change_answer healthy id tx w r h = ground arith

-- When Coordinator.Cancel answers with a run, the database holds that run as cancelled, whatever the
-- connection did to the commit.
pub coordinator_cancel_recorded :
    (conn : Connection) (reachable : Bool) (id now : ℕ) (w : World) (r : Run)
    → (coordinator_cancel conn reachable id now w).0 ≡ ok r
    → (find_run id (coordinator_cancel conn reachable id now w).2.db ≡ some r)
      × (r.status ≡ cancelled)
unfolding coordinator_cancel confirm read
coordinator_cancel_recorded conn reachable id now w r h =
    let tx = record_failure id cancelled (failure_detail "user_cancelled") now in
    elim (Result-cases (change conn id tx w).0) [
      | inl (e, failed) ↦ elim (Option-cases (find_run id (change conn id tx w).1.db)) [
        | inl missing ↦ absurd (ground arith)
        | inr (q, known) ↦ ground arith
      ]
      | inr (r', done) ↦
          let there : find_run id (change conn id tx w).1.db ≡ some r' =
            record_failure_answer id cancelled (failure_detail "user_cancelled") now w.db _ r'
              (change_answer conn id tx w r' done) in
          ground arith
    ]
