-- ===== src/Cancel/Answer.antt =====
-- Canceller.Cancel of services/control-plane/internal/runs/cancel.go: lemmas on the answer of a request.
use harness_forge.Base.{
  ℕ, Bool, ◌&&◌, ◌≡◌, inl, inr, refl, some, none, arith, Bool-cases, ==-refl, Option-cases, Option,
}
use harness_forge.Base.Tables.{find-update}
use harness_forge.Schema.{
  queued, same_status, cancelled, Run, Database, Result, ok, err, conflict, Result-cases, find_run,
  update_run,
}
use harness_forge.State.{finish}
use harness_forge.State.Outcome.{finish-Outcome}
use harness_forge.RunChanges.{log_event}
use harness_forge.RunCommit.{
  cancel_queued, cancel_row, copy_outcome, nothing_acquired, terminal_event,
}
use harness_forge.Durable.{World, Connection, cancel_queued_durably, is_reachable, is_done}
use harness_forge.Cancel.{
  Active, Interference, read, cancel, cancel_run, after_cancel_queued, after_read, cancel_active,
  run_active,
}
use harness_forge.Cancel.Recorded.{change_answer}

cancel_row_answer :
    (id : ℕ) (r : Run) (now : ℕ) (db db' : Database) (row : Run)
    → find_run id db ≡ some r
    → cancel_row id r now db ≡ ok (row, db')
    → row.status ≡ cancelled
cancel_row_answer id r now db db' row known h =
    elim (Result-cases (finish r cancelled nothing_acquired now)) [
      | inl (e, refused) ↦ absurd (unfold cancel_row in ground arith)
      | inr (done', finished) ↦
          let ended = (finish-Outcome r cancelled nothing_acquired now done' finished).0 in
          let found' =
            find-update (λ (x : Run). x.id) id id (copy_outcome done') db.runs
              (λ x. unfold copy_outcome in refl) in
          elim (Result-cases (
            log_event
              (record (terminal_event id cancelled now) {
                occurred_at = (copy_outcome done' r).updated_at;
              })
              (update_run id (copy_outcome done') db))) [
                | inl (e, refused) ↦
                    unfold cancel_row copy_outcome in ground (arith, found', ==-refl id)
                | inr (x, logged) ↦
                    unfold cancel_row copy_outcome in ground (arith, found', ==-refl id)
              ]
    ]

cancel_queued_answer :
    (id now : ℕ) (db db' : Database) (row : Run)
    → cancel_queued id now db ≡ ok (row, db')
    → row.status ≡ cancelled
unfolding cancel_queued
cancel_queued_answer id now db db' row h = elim (Option-cases (find_run id db)) [
  | inl missing ↦ absurd (ground arith)
  | inr (r, known) ↦ ground (arith, cancel_row_answer id r now db db' row known)
]

cancel_queued_durably_answer :
    (conn : Connection) (id now : ℕ) (w : World) (row : Run)
    → (cancel_queued_durably conn id now w).0 ≡ ok row
    → row.status ≡ cancelled
unfolding cancel_queued_durably
cancel_queued_durably_answer conn id now w row h =
    elim (Bool-cases (is_reachable conn && is_done (find_run id w.db))) [
      | inl t ↦ elim (Option-cases (find_run id w.db)) [
        | inl missing ↦ absurd (ground arith)
        | inr (r, known) ↦ ground arith
      ]
      | inr f ↦
          cancel_queued_answer id now w.db _ row
            (change_answer conn id (cancel_queued id now) w row (ground arith))
    ]

-- An active cancel whose success is a cancelled run.
abbrev pub IsHonest : Option Active → Type 0
IsHonest none = Unit
IsHonest (some active) =
    (run : Run) (w : World) (r : Run) → (active run w).0 ≡ ok r → r.status ≡ cancelled

after_read_answer :
    (active : Option Active) (others : Interference) (result : Result Run) (w : World) (r : Run)
    → IsHonest active
    → (after_read active others result w).0 ≡ ok r
    → r.status ≡ cancelled
unfolding after_read cancel_active run_active
after_read_answer none others (err e) w r honest h = ground arith
after_read_answer none others (ok run) w r honest h = ground arith
after_read_answer (some active) others (err e) w r honest h = ground arith
after_read_answer (some active) others (ok run) w r honest h =
    ground (arith, honest run (others.before_active w) r)

after_cancel_queued_answer :
    (active : Option Active) (others : Interference) (reachable : Bool) (id : ℕ)
    (answer : Result Run) (w : World) (r : Run)
    → IsHonest active
    → ((row : Run) → answer ≡ ok row → row.status ≡ cancelled)
    → (after_cancel_queued active others reachable id answer w).0 ≡ ok r
    → r.status ≡ cancelled
unfolding after_cancel_queued
after_cancel_queued_answer active others reachable id (ok row) w r honest queued' h = queued' r h
after_cancel_queued_answer active others reachable id (err conflict) w r honest queued' h =
    after_read_answer active others (read reachable id (others.before_reread w).db)
      (others.before_reread w) r honest h
after_cancel_queued_answer active others reachable id (err e) w r honest queued' h = ground arith

cancel_run_answer :
    (active : Option Active) (others : Interference) (conn : Connection) (reachable : Bool)
    (id now : ℕ) (result : Result Run) (w : World) (r : Run)
    → IsHonest active
    → (cancel_run active others conn reachable id now result w).0 ≡ ok r
    → r.status ≡ cancelled
unfolding cancel_run
cancel_run_answer active others conn reachable id now (err e) w r honest h = ground arith
cancel_run_answer active others conn reachable id now (ok run) w r honest h =
    let asked = cancel_queued_durably conn id now (others.before_cancel w) in
    elim (Bool-cases (same_status run.status queued)) [
      | inl t ↦
          after_cancel_queued_answer active others reachable id asked.0 asked.1 r honest
            (cancel_queued_durably_answer conn id now (others.before_cancel w)) (rw t at h)
      | inr f ↦ after_read_answer active others (ok run) w r honest (rw f at h)
    ]

-- When a cancel request answers with a run, that run is cancelled, whatever other requests do
-- between its calls, if a success of the active cancel means that too.
pub cancel_answer :
    (active : Option Active) (others : Interference) (conn : Connection) (reachable : Bool)
    (id now : ℕ) (w : World) (r : Run)
    → IsHonest active
    → (cancel active others conn reachable id now w).0 ≡ ok r
    → r.status ≡ cancelled
unfolding cancel
cancel_answer active others conn reachable id now w r honest h =
    cancel_run_answer active others conn reachable id now (read reachable id w.db) w r honest h
