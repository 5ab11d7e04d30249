-- ===== src/Lifecycle/Moves.antt =====
-- Lemmas on the transactions of services/control-plane/internal/runs: the move of a run in each.
pub mod Commit
pub mod Intake
use harness_forge.Base.{
  ℕ, ℤ, pos, String, ◌≡◌, ◌≢◌, ◌⊎◌, inl, inr, refl, sym, ap, ◌∙◌, Bool, true, false, not, ◌&&◌,
  ◌||◌, Option, none, some, List, [], ◌∷◌, ◌++◌, arith, ◌==◌, ltb, ==_iff, ==-refl, Option-cases,
  Bool-cases, if◌then◌else◌, is_some, holds, same_text,
}
use harness_forge.Base.Tables.{exists}
use harness_forge.Base.Json.{Json}
use harness_forge.Schema.{
  Status, queued, running, succeeded, failed, cancelled, interrupted, same_status, Phase, preparing,
  agent, publishing, is_phase, Run, Event, Database, conflict, Result, ok, err, found, refuse_if,
  ◌>>=◌, ◌>>◌, Result-chain, find_run, update_run, find_conversation,
}
use harness_forge.State.{terminal, advance}
use harness_forge.Contracts.{RuntimeEvent}
use harness_forge.RunStore.{
  begin_sandbox_acquire, attach_sandbox_ref, set_provider, set_ref, may_acquire, may_attach,
}
use harness_forge.RunChanges.{
  refresh_source, log_event, phase_event, set_phase_of, check_advance, set_phase, record_failure,
  fail_run, set_outcome, is_failure,
}
use harness_forge.Reconciler.Cleanup.{update_error, set_error_member}
use harness_forge.Lifecycle.{
  Stays, Move, stays, advances, fails, succeeds, ends, withdraws, RowStep,
}
use harness_forge.Lifecycle.Rows.{
  find-update_run, RowStep-update, RowStep-update_known, RowStep-then, RowStep-Stays-then,
  RowStep-refl, RowStep-Stays_change, RowStep-runs, RowStep-log_event, Stays-refl,
}

-- RecordFailure
record_failure_cases :
    (id : ℕ) (status : Status) (detail : Json) (now : ℕ) (db db' : Database) (row r : Run)
    → find_run id db ≡ some r
    → record_failure id status detail now db ≡ ok (row, db')
    → (db' ≡ db)
      ⊎ ((r.status ≡ running)
          × (terminal status ≡ true)
          × (status ≢ succeeded)
          × (status ≡ cancelled → r.phase ≢ some publishing)
          × (db' ≡ update_run id (set_outcome status detail now) db))
unfolding record_failure
record_failure_cases id status detail now db db' row r known h = ground arith

pub record_failure-RowStep :
    (id : ℕ) (status : Status) (detail : Json) (now : ℕ) (db db' : Database) (row : Run)
    → record_failure id status detail now db ≡ ok (row, db')
    → RowStep Move id db db'
unfolding set_outcome
record_failure-RowStep id status detail now db db' row h = elim (Option-cases (find_run id db)) [
  | inl missing ↦ absurd (unfold record_failure in ground arith)
  | inr (r, known) ↦ elim (record_failure_cases id status detail now db db' row r known h) [
    | inl same ↦ rw same (RowStep-Stays_change id db db (RowStep-refl id db))
    | inr (open', fatal, ne, early, changed) ↦ rw changed (
        RowStep-update_known Move id (set_outcome status detail now) db r (λ x. refl) (λ x. refl)
          known (fails open' fatal ne early refl refl))
  ]
]

pub check_advance-Move :
    (r : Run) (phase : Phase) (now : ℕ)
    → r.status ≡ running
    → is_some r.phase ≡ true
    → check_advance r phase now ≡ ok tt
    → Move r (set_phase_of phase now r)
unfolding advance set_phase_of
check_advance-Move r phase now open' phased h = elim (Bool-cases (is_phase phase r.phase)) [
  | inl same ↦ stays (record { status = refl; phase = ground arith; finalized_at = refl })
  | inr new ↦ advances open' open' (ground arith) refl
]

-- UPDATE runs SET error
update_error_cases :
    (key : String) (value : Json) (id now : ℕ) (db db' : Database) (r : Run)
    → find_run id db ≡ some r
    → update_error key value id now db ≡ ok (tt, db')
    → (e : Json) × (db'
        ≡ update_run id (λ (r' : Run). record r' { error = some e; updated_at = now }) db)
unfolding update_error
update_error_cases key value id now db db' r known h =
    elim (Option-cases (set_error_member key value r.error)) [
      | inl refused ↦ absurd (ground arith)
      | inr (e, set) ↦ (e, ground arith)
    ]

pub update_error-RowStep :
    (key : String) (value : Json) (id now : ℕ) (db db' : Database)
    → update_error key value id now db ≡ ok (tt, db')
    → RowStep Move id db db'
update_error-RowStep key value id now db db' h = elim (Option-cases (find_run id db)) [
  | inl missing ↦
      let same : db' ≡ db = unfold update_error in ground arith in
      rw same (RowStep-Stays_change id db db (RowStep-refl id db))
  | inr (r, known) ↦
      let (e, changed) = update_error_cases key value id now db db' r known h in
      rw changed (
        RowStep-update_known Move id (λ (r' : Run). record r' { error = some e; updated_at = now })
          db r (λ x. refl) (λ x. refl) known
          (stays (record { status = refl; phase = refl; finalized_at = refl })))
]

-- SetPhase
set_phase_cases :
    (id : ℕ) (phase : Phase) (now : ℕ) (db db' : Database) (r : Run)
    → find_run id db ≡ some r
    → set_phase id phase now db ≡ ok db'
    → (r.status ≡ running)
      × (is_some r.phase ≡ true)
      × (check_advance r phase now ≡ ok tt)
      × (log_event (phase_event id phase now) (update_run id (set_phase_of phase now) db) ≡ ok db')
unfolding set_phase
set_phase_cases id phase now db db' r known h = ground arith

pub set_phase-RowStep :
    (id : ℕ) (phase : Phase) (now : ℕ) (db db' : Database)
    → set_phase id phase now db ≡ ok db'
    → RowStep Move id db db'
set_phase-RowStep id phase now db db' h = elim (Option-cases (find_run id db)) [
  | inl missing ↦ absurd (unfold set_phase in ground arith)
  | inr (r, known) ↦
      let (open', phased, allowed, logged) = set_phase_cases id phase now db db' r known h in
      let changed = update_run id (set_phase_of phase now) db in
      RowStep-then id db changed db'
        (RowStep-update_known Move id (set_phase_of phase now) db r
          (λ x. unfold set_phase_of in refl) (λ x. unfold set_phase_of in refl) known
          (check_advance-Move r phase now open' phased allowed))
        (RowStep-log_event (phase_event id phase now) changed db' logged)
]

-- RefreshSource
refresh_source_cases :
    (id now : ℕ) (db db' : Database) (row : Run)
    → refresh_source id now db ≡ ok (row, db')
    → (source : Option String) × (db'
        ≡ update_run id
            (λ (r : Run). record r { source_sdk_session_id = source; updated_at = now })
            db)
refresh_source_cases id now db db' row h = elim (Option-cases (find_run id db)) [
  | inl missing ↦ absurd (unfold refresh_source in ground arith)
  | inr (r, known) ↦ elim (Option-cases (find_conversation r.conversation_id db)) [
    | inl missing ↦ absurd (unfold refresh_source in ground arith)
    | inr (c, owner) ↦ (c.active_sdk_session_id, unfold refresh_source in ground arith)
  ]
]

pub refresh_source-RowStep :
    (id now : ℕ) (db db' : Database) (row : Run)
    → refresh_source id now db ≡ ok (row, db')
    → RowStep Move id db db'
refresh_source-RowStep id now db db' row h =
    let (source, changed) = refresh_source_cases id now db db' row h in
    let set_source = λ (r : Run). record r { source_sdk_session_id = source; updated_at = now } in
    rw changed (
      RowStep-update Move id set_source db (λ x. refl) (λ x. refl)
        (λ r e. stays (record { status = refl; phase = refl; finalized_at = refl })))

-- BeginSandboxAcquire and AttachSandboxRef
pub begin_sandbox_acquire-RowStep :
    (id : ℕ) (provider : String) (now : ℕ) (db db' : Database) (row : Run)
    → begin_sandbox_acquire id provider now db ≡ ok (row, db')
    → RowStep Move id db db'
begin_sandbox_acquire-RowStep id provider now db db' row h =
    let changed : db' ≡ update_run id (set_provider provider now) db =
      unfold begin_sandbox_acquire in ground arith in
    rw changed (
      RowStep-update Move id (set_provider provider now) db (λ x. refl) (λ x. refl)
        (λ r e. stays (record { status = refl; phase = refl; finalized_at = refl })))

pub attach_sandbox_ref-RowStep :
    (id : ℕ) (provider ref : String) (now : ℕ) (db db' : Database) (row : Run)
    → attach_sandbox_ref id provider ref now db ≡ ok (row, db')
    → RowStep Move id db db'
attach_sandbox_ref-RowStep id provider ref now db db' row h =
    let changed : db' ≡ update_run id (set_ref ref now) db =
      unfold attach_sandbox_ref in ground arith in
    rw changed (
      RowStep-update Move id (set_ref ref now) db (λ x. refl) (λ x. refl)
        (λ r e. stays (record { status = refl; phase = refl; finalized_at = refl })))
