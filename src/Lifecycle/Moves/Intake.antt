-- ===== src/Lifecycle/Moves/Intake.antt =====
-- Lemmas on the transactions that claim a run, take a Runtime event and cancel a queued run.
use harness_forge.Base.{
  ℕ, String, ◌≡◌, ◌⊎◌, inl, inr, refl, ap, ◌∙◌, Bool, true, false, ◌&&◌, Option, none, some, arith,
  Option-cases, Bool-cases, is_some,
}
use mathlib.Core.List.{head?}
use harness_forge.Base.Tables.{exists, where_rows, order_by}
use harness_forge.Base.Json.{Json}
use harness_forge.Schema.{
  queued, running, cancelled, same_status, Phase, Run, Database, ok, ◌>>=◌, Result-chain,
  Result-cases, find_run, update_run,
}
use harness_forge.State.{finish}
use harness_forge.Contracts.{RuntimeEvent, Payload, phase_changed, assistant_message, agent_failed}
use harness_forge.RunStore.{older, is_candidate, is_active, claim, claim_next}
use harness_forge.RunChanges.{
  log_event, set_phase_of, check_advance, phase_of, apply_phase, before_event, runtime_row,
  after_event, insert_reply, set_failed, apply_event, record_runtime_event,
}
use harness_forge.RunCommit.{
  terminal_event, copy_outcome, cancel_row, nothing_acquired, cancel_queued,
}
use harness_forge.Lifecycle.{Stays, Move, fails, withdraws, RowStep}
use harness_forge.Lifecycle.Rows.{
  RowStep-update, RowStep-update_known, RowStep-then, RowStep-Stays-then, RowStep-refl,
  RowStep-Stays_change, RowStep-runs, RowStep-after, RowStep-log_event,
}
use harness_forge.Lifecycle.Moves.{check_advance-Move}

-- the phase change before the event
apply_phase_cases :
    (id : ℕ) (r : Run) (p : Phase) (now : ℕ) (db db' : Database)
    → apply_phase id r (some p) now db ≡ ok db'
    → (is_some r.phase ≡ true)
      × (check_advance r p now ≡ ok tt)
      × (db' ≡ update_run id (set_phase_of p now) db)
apply_phase_cases id r p now db db' h = ground arith

apply_phase-RowStep :
    (id : ℕ) (r : Run) (p : Option Phase) (now : ℕ) (db db' : Database)
    → find_run id db ≡ some r
    → r.status ≡ running
    → apply_phase id r p now db ≡ ok db'
    → RowStep Move id db db'
apply_phase-RowStep id r none now db db' known open' h = cc
apply_phase-RowStep id r (some p) now db db' known open' h =
    let (phased, allowed, changed) = apply_phase_cases id r p now db db' h in
    rw changed (
      RowStep-update_known Move id (set_phase_of p now) db r (λ x. unfold set_phase_of in refl)
        (λ x. unfold set_phase_of in refl) known (check_advance-Move r p now open' phased allowed))

ok_injective : (a b : Database) → ok a ≡ ok b → b ≡ a
ok_injective a b h = cc

before_event-RowStep :
    (id : ℕ) (r : Run) (p : Payload) (now : ℕ) (db db' : Database)
    → find_run id db ≡ some r
    → r.status ≡ running
    → before_event id r p now db ≡ ok db'
    → RowStep Move id db db'
before_event-RowStep id r (phase_changed p) now db db' known open' h =
    apply_phase-RowStep id r (phase_of p) now db db' known open' h
before_event-RowStep id r p now db db' known open' h =
    rw (ok_injective db db' h) (RowStep-Stays_change id db db (RowStep-refl id db))

runs-insert_reply :
    (id seq : ℕ) (r : Run) (content : String) (fresh now : ℕ) (db db' : Database)
    → insert_reply id seq r content fresh now db ≡ ok db'
    → (db'.runs ≡ db.runs) × (db'.run_events ≡ db.run_events)
unfolding insert_reply
runs-insert_reply id seq r content fresh now db db' h = ground arith

-- the failed outcome that an agent.failed event records
set_failed-RowStep :
    (id : ℕ) (detail : Json) (now : ℕ) (db mid : Database) (r : Run)
    → find_run id db ≡ some r
    → r.status ≡ running
    → RowStep Stays id db mid
    → RowStep Move id db (update_run id (set_failed detail now) mid)
unfolding set_failed
set_failed-RowStep id detail now db mid r known open' before =
    RowStep-after id db mid (update_run id (set_failed detail now) mid) before (
      RowStep-update Move id (set_failed detail now) mid (λ x. refl) (λ x. refl)
        (λ x e.
          let (r₀, e₀, s) = before.here x e in
          let same : r₀ ≡ r = ground arith in
          fails (s.status ∙ ap (λ (y : Run). y.status) same ∙ open') refl (λ p. cc) (λ p. cc) refl
            refl))

-- the statements of RecordRuntimeEvent, in order
apply_event_cases :
    (id : ℕ) (e : RuntimeEvent) (r : Run) (fresh now : ℕ) (db db' : Database)
    → apply_event id e r fresh now db ≡ ok db'
    → (db₁ : Database) × (db₂ : Database) × (before_event id r e.payload now db ≡ ok db₁)
      × (log_event (runtime_row id e) db₁ ≡ ok db₂)
      × (after_event id e.sequence r e.payload fresh now db₂ ≡ ok db')
unfolding apply_event
apply_event_cases id e r fresh now db db' h =
    let (db₁, before, rest) =
      Result-chain (before_event id r e.payload now db)
        (λ (x : Database). log_event (runtime_row id e) x >>= λ (y : Database).
          after_event id e.sequence r e.payload fresh now y)
        h in
    let (db₂, logged, last) =
      Result-chain (log_event (runtime_row id e) db₁)
        (λ (y : Database). after_event id e.sequence r e.payload fresh now y) rest in
    (db₁, db₂, before, logged, last)

module _ (id seq : ℕ) (r : Run) (fresh now : ℕ) (db db₁ db₂ db' : Database)
    (known : find_run id db ≡ some r) (open' : r.status ≡ running)
    (logged : RowStep Stays id db₁ db₂) where
  payload-RowStep :
      (p : Payload)
      → before_event id r p now db ≡ ok db₁
      → after_event id seq r p fresh now db₂ ≡ ok db'
      → RowStep Move id db db'
  unfolding after_event
  payload-RowStep (phase_changed p) before last = rw (ok_injective db₂ db' last) (
      RowStep-then id db db₁ db₂
        (before_event-RowStep id r (phase_changed p) now db db₁ known open' before) logged)
  payload-RowStep (assistant_message t) before last =
      RowStep-then id db db₁ db'
        (before_event-RowStep id r (assistant_message t) now db db₁ known open' before)
        (RowStep-Stays-then id db₁ db₂ db' logged (
          RowStep-runs id db₂ db' (runs-insert_reply id seq r t fresh now db₂ db' last).0
            (runs-insert_reply id seq r t fresh now db₂ db' last).1))
  payload-RowStep (agent_failed c m t) before last =
      let same = ok_injective db db₁ before in
      rw (ok_injective _ db' last)
        (set_failed-RowStep id _ now db db₂ r known open' (rw same at logged))
  payload-RowStep p before last = rw (ok_injective db₂ db' last) (
      RowStep-then id db db₁ db₂ (before_event-RowStep id r p now db db₁ known open' before) logged)

-- RecordRuntimeEvent
apply_event-RowStep :
    (id : ℕ) (e : RuntimeEvent) (r : Run) (fresh now : ℕ) (db db' : Database)
    → find_run id db ≡ some r
    → r.status ≡ running
    → apply_event id e r fresh now db ≡ ok db'
    → RowStep Move id db db'
apply_event-RowStep id e r fresh now db db' known open' h =
    let (db₁, db₂, before, logged, last) = apply_event_cases id e r fresh now db db' h in
    payload-RowStep id e.sequence r fresh now db db₁ db₂ db' known open'
      (RowStep-log_event (runtime_row id e) db₁ db₂ logged) e.payload before last

record_cases :
    (id : ℕ) (own_id : String) (e : RuntimeEvent) (fresh now : ℕ) (db db' : Database) (r : Run)
    → find_run id db ≡ some r
    → record_runtime_event id own_id e fresh now db ≡ ok db'
    → (db' ≡ db) ⊎ ((r.status ≡ running) × (apply_event id e r fresh now db ≡ ok db'))
unfolding record_runtime_event
record_cases id own_id e fresh now db db' r known h = ground arith

pub record_runtime_event-RowStep :
    (id : ℕ) (own_id : String) (e : RuntimeEvent) (fresh now : ℕ) (db db' : Database)
    → record_runtime_event id own_id e fresh now db ≡ ok db'
    → RowStep Move id db db'
record_runtime_event-RowStep id own_id e fresh now db db' h = elim (Option-cases (find_run id db)) [
  | inl missing ↦ absurd (unfold record_runtime_event in ground arith)
  | inr (r, known) ↦ elim (record_cases id own_id e fresh now db db' r known h) [
    | inl same ↦ rw same (RowStep-Stays_change id db db (RowStep-refl id db))
    | inr (open', applied) ↦ apply_event-RowStep id e r fresh now db db' known open' applied
  ]
]

cancel_row_cases :
    (id : ℕ) (r : Run) (now : ℕ) (db db' : Database) (row : Run)
    → cancel_row id r now db ≡ ok (row, db')
    → (r.status ≡ queued)
      × ((r' : Run) × (finish r cancelled nothing_acquired now ≡ ok r')
          × ((at : ℕ) × (log_event
                  (record (terminal_event id cancelled now) { occurred_at = at })
                  (update_run id (copy_outcome r') db)
                ≡ ok db')))
unfolding cancel_row
cancel_row_cases id r now db db' row h =
    elim (Result-cases (finish r cancelled nothing_acquired now)) [
      | inl (e, refused) ↦ absurd (ground arith)
      | inr (r', finished) ↦
          elim (Option-cases (find_run id (update_run id (copy_outcome r') db))) [
            | inl missing ↦ absurd (ground arith)
            | inr (x, kept) ↦ (ground arith, (r', finished, (x.updated_at, ground arith)))
          ]
    ]

finish_cancelled :
    (r r' : Run) (now : ℕ)
    → r.status ≡ queued
    → finish r cancelled nothing_acquired now ≡ ok r'
    → (r'.status ≡ cancelled) × (r'.finalized_at ≡ some now)
unfolding finish
finish_cancelled r r' now q h = ground arith

-- CancelQueued
pub cancel_queued-RowStep :
    (id now : ℕ) (db db' : Database) (row : Run)
    → cancel_queued id now db ≡ ok (row, db')
    → RowStep Move id db db'
unfolding copy_outcome
cancel_queued-RowStep id now db db' row h = elim (Option-cases (find_run id db)) [
  | inl missing ↦ absurd (unfold cancel_queued in ground arith)
  | inr (r, known) ↦ elim (Bool-cases (same_status r.status cancelled && is_some r.finalized_at)) [
    | inl over ↦
        let same : db' ≡ db = unfold cancel_queued in ground arith in
        rw same (RowStep-Stays_change id db db (RowStep-refl id db))
    | inr open' ↦
        let row_cancelled : cancel_row id r now db ≡ ok (row, db') =
          unfold cancel_queued in ground arith in
        let (idle, (r', finished, (at', logged))) =
          cancel_row_cases id r now db db' row row_cancelled in
        let (status, ended) = finish_cancelled r r' now idle finished in
        let changed = update_run id (copy_outcome r') db in
        RowStep-then id db changed db'
          (RowStep-update_known Move id (copy_outcome r') db r (λ x. refl) (λ x. refl) known
            (withdraws idle status refl (rw ended)))
          (RowStep-log_event (record (terminal_event id cancelled now) { occurred_at = at' })
            changed db' logged)
  ]
]

-- ClaimNext: either nothing happens, or the first candidate of an idle system is claimed.
pub claim_next_cases :
    (locked : ℕ → Bool) (now : ℕ) (db db' : Database) (o : Option Run)
    → claim_next locked now db ≡ ok (o, db')
    → ((o ≡ none) × (db' ≡ db))
      ⊎ ((r : Run) × (exists is_active db.runs ≡ false)
          × (head? (order_by older (where_rows (is_candidate locked) db.runs)) ≡ some r)
          × (db' ≡ update_run r.id (claim now) db)
          × (o ≡ find_run r.id db'))
claim_next_cases locked now db db' o h = elim (Bool-cases (exists is_active db.runs)) [
  | inl busy ↦ inl (unfold claim_next in ground arith, unfold claim_next in ground arith)
  | inr idle ↦
      elim (Option-cases (head? (order_by older (where_rows (is_candidate locked) db.runs)))) [
        | inl drained ↦ inl (unfold claim_next in ground arith, unfold claim_next in ground arith)
        | inr (r, front) ↦ elim (Option-cases (find_run r.id (update_run r.id (claim now) db))) [
          | inl missing ↦ absurd (unfold claim_next in ground arith)
          | inr (r', kept) ↦
              inr (
                r,
                idle,
                front,
                unfold claim_next in ground arith,
                unfold claim_next in ground arith,
              )
        ]
      ]
]
