-- ===== src/Lifecycle/Steps/Safety.antt =====
-- Lemmas on the invariant of the runs and the steps of the database.
use harness_forge.Base.{
  ℕ, String, ◌≤◌, ◌≡◌, ◌⊎◌, inl, inr, refl, sym, ◌∙◌, Bool, true, false, Option, none, some, [],
  ◌∷◌, ◌++◌, arith, ◌==◌, if◌then◌else◌, is_some,
}
use mathlib.Core.List.{head?}
use harness_forge.Base.Tables.{find, find-append, exists, exists-find, where_rows, order_by}
use harness_forge.Base.Keys.{
  All-test-where_rows, All-where_rows, All-order_by, All-head?, All-find, Keyed, Keyed-append,
}
use harness_forge.Schema.{Run, Database, ok, find_run, update_run}
use harness_forge.RunStore.{is_active, is_candidate, older, claim, new_run, create_queued_tx}
use harness_forge.Events.Sequence.{events_of, Ascending}
use harness_forge.Lifecycle.{Move, Claims, RowStep}
use harness_forge.Lifecycle.Rows.{RowStep-update_known, RowStep-Stays_change, RowStep-log_event}
use harness_forge.Lifecycle.Moves.{
  record_failure-RowStep, set_phase-RowStep, refresh_source-RowStep, begin_sandbox_acquire-RowStep,
  attach_sandbox_ref-RowStep, update_error-RowStep,
}
use harness_forge.Lifecycle.Moves.Commit.{commit_products-RowStep, acknowledge_finalized-RowStep}
use harness_forge.Lifecycle.Moves.Intake.{
  record_runtime_event-RowStep, cancel_queued-RowStep, claim_next_cases,
}
use harness_forge.Lifecycle.Steps.{
  Change, acquire_begun, ref_attached, source_refreshed, phase_set, runtime_event_recorded,
  event_appended, failure_recorded, products_committed, end_acknowledged, error_updated,
  queued_cancelled, Step, created, claimed, changed, Reach, here, next,
}
use harness_forge.Lifecycle.Steps.Invariant.{
  IsWellFormed, Claims-IsSound, RowStep-IsWellFormed, came_from,
}

pub Change-RowStep : (db db' : Database) (id : ℕ) → Change db db' id → RowStep Move id db db'
Change-RowStep db db' i (acquire_begun id provider now row h) =
    begin_sandbox_acquire-RowStep id provider now db db' row h
Change-RowStep db db' i (ref_attached id provider ref now row h) =
    attach_sandbox_ref-RowStep id provider ref now db db' row h
Change-RowStep db db' i (source_refreshed id now row h) = refresh_source-RowStep id now db db' row h
Change-RowStep db db' i (phase_set id phase now h) = set_phase-RowStep id phase now db db' h
Change-RowStep db db' i (runtime_event_recorded id own_id e fresh now h) =
    record_runtime_event-RowStep id own_id e fresh now db db' h
Change-RowStep db db' i (event_appended event row id owner h) =
    rw (← owner) (RowStep-Stays_change event.run_id db db' (RowStep-log_event event db db' (rw h)))
Change-RowStep db db' i (failure_recorded id status detail now row h) =
    record_failure-RowStep id status detail now db db' row h
Change-RowStep db db' i (products_committed id project candidate records now h) =
    commit_products-RowStep id project candidate records now db db' h
Change-RowStep db db' i (end_acknowledged format id now h) =
    acknowledge_finalized-RowStep format id now db db' h
Change-RowStep db db' i (error_updated key value id now h) =
    update_error-RowStep key value id now db db' h
Change-RowStep db db' i (queued_cancelled id now row h) = cancel_queued-RowStep id now db db' row h

-- ClaimNext makes the first candidate the only active run.
module _ (locked : ℕ → Bool) (db : Database) (r : Run)
    (front : head? (order_by older (where_rows (is_candidate locked) db.runs)) ≡ some r) where
  pub front_waits : is_candidate locked r ≡ true
  front_waits =
      All-head? (λ x. is_candidate locked x ≡ true)
        (order_by older (where_rows (is_candidate locked) db.runs)) r
        (All-order_by (λ x. is_candidate locked x ≡ true) older
          (where_rows (is_candidate locked) db.runs)
          (All-test-where_rows (is_candidate locked) db.runs))
        front

  pub front_known : Keyed (λ (x : Run). x.id) db.runs → find_run r.id db ≡ some r
  front_known k =
      All-head? (λ (x : Run). find_run x.id db ≡ some x)
        (order_by older (where_rows (is_candidate locked) db.runs)) r
        (All-order_by (λ (x : Run). find_run x.id db ≡ some x) older
          (where_rows (is_candidate locked) db.runs)
          (All-where_rows (λ (x : Run). find_run x.id db ≡ some x) (is_candidate locked) db.runs
            (All-find (λ (x : Run). x.id) db.runs k)))
        front

  pub claim-RowStep :
      (now : ℕ)
      → Keyed (λ (x : Run). x.id) db.runs
      → RowStep Claims r.id db (update_run r.id (claim now) db)
  unfolding claim
  claim-RowStep now k =
      RowStep-update_known Claims r.id (claim now) db r (λ x. refl) (λ x. refl) (front_known k)
        (record {
          idle = ground (arith, front_waits);
          status = refl;
          phase = refl;
          finalized_at = refl;
        })

claimed-IsWellFormed :
    (id : ℕ) (db db' : Database)
    → RowStep Claims id db db'
    → exists is_active db.runs ≡ false
    → IsWellFormed db
    → IsWellFormed db'
claimed-IsWellFormed id db db' s idle w = record {
  keyed = s.keyed w.keyed;
  sequenced = s.sequenced w.sequenced;
  sound = λ i r' e. elim (came_from Claims id db db' s i r' e) [
    | inl (same, (r, known, step)) ↦ Claims-IsSound r r' step (w.sound i r known)
    | inr (ne, known) ↦ w.sound i r' known
  ];
  single = λ i j a b p q x y. sym (only i a p x) ∙ only j b q y;
}
  where
    only : (i : ℕ) (a : Run) → find_run i db' ≡ some a → is_active a ≡ true → id ≡ i
    only i a p x = elim (came_from Claims id db db' s i a p) [
      | inl (same, _) ↦ same
      | inr (ne, known) ↦
          absurd (ground (arith, exists-find (λ (r : Run). r.id) is_active db.runs i a idle known))
    ]

pub create-IsWellFormed :
    (id conversation trigger : ℕ) (source : Option String) (now : ℕ) (db db' : Database) (row : Run)
    → create_queued_tx id conversation trigger source now db ≡ ok (row, db')
    → IsWellFormed db
    → IsWellFormed db'
create-IsWellFormed id conversation trigger source now db db' row h w = rw changed' (record {
  keyed = Keyed-append (λ (r : Run). r.id) db.runs row' fresh w.keyed;
  sequenced = record {
    ascends = ascends;
    owned = λ i e. w.sequenced.owned i (ground (arith, known i));
  };
  sound = λ i r e. elim (origin i r e) [
    | inl (same, new) ↦ rw new (record {
      idle = λ q. (refl, refl);
      open_run = λ q. cc;
      over = λ q. cc;
      published = λ q. cc;
      stopped = λ q. cc;
    })
    | inr old ↦ w.sound i r old
  ];
  single = λ i j a b p q x y. w.single i j a b (before i a p x) (before j b q y) x y;
})
  where
    row' : Run
    row' = new_run id conversation trigger source now

    after' : Database
    after' = record db { runs = db.runs ++ row' ∷ [] }

    changed' : db' ≡ after'
    changed' = unfold create_queued_tx in ground arith

    fresh : find_run id db ≡ none
    fresh = unfold create_queued_tx in ground arith

    known :
        (i : ℕ)
        → find_run i after'
          ≡ (if is_some (find_run i db) then find_run i db else if id == i then some row' else none)
    known i = find-append (λ (r : Run). r.id) i db.runs (row' ∷ []) ∙ unfold find in refl

    origin :
        (i : ℕ) (r : Run)
        → find_run i after' ≡ some r
        → ((id ≡ i) × (r ≡ row')) ⊎ (find_run i db ≡ some r)
    origin i r e = ground (arith, known i)

    before :
        (i : ℕ) (r : Run) → find_run i after' ≡ some r → is_active r ≡ true → find_run i db ≡ some r
    before i r e a = elim (origin i r e) [ inl (same, new) ↦ absurd (ground arith) | inr old ↦ old ]

    unfold_next : (r : Run) → r ≡ row' → 0 ≤ r.next_event_sequence
    unfold_next r new = omega arith

    ascends :
        (i : ℕ) (r : Run)
        → find_run i after' ≡ some r
        → Ascending 0 (events_of i db.run_events) r.next_event_sequence
    ascends i r e = elim (origin i r e) [
      | inl (same, new) ↦ rw (w.sequenced.owned i (rw same at fresh)) (unfold_next r new)
      | inr old ↦ w.sequenced.ascends i r old
    ]

Step-IsWellFormed : (db db' : Database) → Step db db' → IsWellFormed db → IsWellFormed db'
Step-IsWellFormed db db' (created id conversation trigger source now row h) w =
    create-IsWellFormed id conversation trigger source now db db' row h w
Step-IsWellFormed db db' (claimed locked now row h) w =
    elim (claim_next_cases locked now db db' row h) [
      | inl (nothing, same) ↦ rw same w
      | inr (r, idle, front, changed', _) ↦ rw changed' (
          claimed-IsWellFormed r.id db (update_run r.id (claim now) db)
            (claim-RowStep locked db r front now w.keyed) idle w)
    ]
Step-IsWellFormed db db' (changed id c) w =
    RowStep-IsWellFormed id db db' (Change-RowStep db db' id c) w

-- From a well-formed database each database that the transactions which create, claim or change
-- runs reach (a hard delete is none of them) is well formed: run keys are distinct, the events of
-- each run are numbered in ascending order below its counter, status, phase and end of each run
-- agree, and at most one run is active.
pub Reach-IsWellFormed : {db db' : Database} → Reach db db' → IsWellFormed db → IsWellFormed db'
Reach-IsWellFormed here w = w
Reach-IsWellFormed (next {mid} {db'} r s) w = Step-IsWellFormed mid db' s (Reach-IsWellFormed r w)
