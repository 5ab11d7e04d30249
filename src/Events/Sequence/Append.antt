-- ===== src/Events/Sequence/Append.antt =====
-- AppendEventTx of services/control-plane/internal/runs/events.go: lemmas on the log and its numbers.
use harness_forge.Base.{
  ℕ, suc, ◌≡◌, ◌⊎◌, inl, inr, refl, ◌∙◌, none, some, [], ◌∷◌, ◌++◌, arith, ◌==◌, ==_iff, Bool-cases,
  Option-cases, if◌then◌else◌,
}
use mathlib.Core.List.{append-nil}
use harness_forge.Base.Tables.{find, update, find-update, where_rows, where_rows-append}
use harness_forge.Schema.{Run, Event, Database, ok}
use harness_forge.Events.{
  of_run, recorded_sequence, recorded_key, validate_event, count_event, append_new, append_event_tx,
}
use harness_forge.Events.Sequence.{events_of, IsSequenced, Ascending-append}

-- The database after `event` got the next number of `run`.
abbrev pub numbered : Run → Event → Event
numbered run event = record event { sequence = run.next_event_sequence }

abbrev pub with_event : Run → Event → Database → Database
with_event run event db = record db {
  runs = update (λ (r : Run). r.id) event.run_id count_event db.runs;
  run_events = db.run_events ++ numbered run event ∷ [];
}

-- A new row, or the row that an earlier append of the same key has left.
pub record Inserted (event : Event) (db : Database) (event' : Event) (db' : Database) : Type 0 where
  pub run : Run
  pub owner : find (λ (r : Run). r.id) event.run_id db.runs ≡ some run
  pub fresh_sequence : recorded_sequence event db.run_events ≡ none
  pub fresh_key : recorded_key event db.run_events ≡ none
  pub valid : validate_event run event ≡ ok tt
  pub row : event' ≡ numbered run event
  pub database : db' ≡ with_event run event db

pub record Replayed (event : Event) (db : Database) (event' : Event) (db' : Database) : Type 0 where
  pub recorded :
      (recorded_sequence event db.run_events ≡ some event')
      ⊎ (recorded_key event db.run_events ≡ some event')
  pub unchanged : db' ≡ db

append_new_cases :
    (run : Run) (event : Event) (db : Database) (event' : Event) (db' : Database)
    → append_new run event db ≡ ok (event', db')
    → (validate_event run event ≡ ok tt)
      × (event' ≡ numbered run event)
      × (db' ≡ with_event run event db)
unfolding append_new
append_new_cases run event db event' db' h = ground arith

pub append_cases :
    (event : Event) (db : Database) (event' : Event) (db' : Database)
    → append_event_tx event db ≡ ok (event', db')
    → Replayed event db event' db' ⊎ Inserted event db event' db'
unfolding append_event_tx
append_cases event db event' db' h =
    elim (Option-cases (find (λ (r : Run). r.id) event.run_id db.runs)) [
      | inl missing ↦ ground arith
      | inr (run, owner) ↦ elim (Option-cases (recorded_sequence event db.run_events)) [
        | inr (old, e) ↦ inl (record { recorded = inl (ground arith); unchanged = ground arith })
        | inl fresh ↦ elim (Option-cases (recorded_key event db.run_events)) [
          | inr (old, e) ↦ inl (record { recorded = inr (ground arith); unchanged = ground arith })
          | inl fresh' ↦
              let new = append_new_cases run event db event' db' (ground arith) in
              inr (record {
                run = run;
                owner = owner;
                fresh_sequence = fresh;
                fresh_key = fresh';
                valid = new.0;
                row = new.1;
                database = new.2;
              })
        ]
      ]
    ]

pub events_of-with_event :
    (id : ℕ) (run : Run) (event : Event) (db : Database)
    → events_of id (with_event run event db).run_events
      ≡ events_of id db.run_events ++ (if event.run_id == id then numbered run event ∷ [] else [])
unfolding events_of where_rows
events_of-with_event id run event db =
    where_rows-append (of_run id) db.run_events (numbered run event ∷ []) ∙ ground arith

pub find-with_event :
    (id : ℕ) (run : Run) (event : Event) (db : Database)
    → find (λ (r : Run). r.id) event.run_id db.runs ≡ some run
    → find (λ (r : Run). r.id) id (with_event run event db).runs
      ≡ (if event.run_id == id then some (count_event run) else find (λ (r : Run). r.id) id db.runs)
unfolding count_event
find-with_event id run event db owner =
    ground (arith, find-update (λ (r : Run). r.id) event.run_id id count_event db.runs (λ x. refl))

pub with_event-IsSequenced :
    (run : Run) (event : Event) (db : Database)
    → find (λ (r : Run). r.id) event.run_id db.runs ≡ some run
    → IsSequenced db
    → IsSequenced (with_event run event db)
unfolding count_event
with_event-IsSequenced run event db owner s = record {
  ascends = λ id r e. elim (Bool-cases (event.run_id == id)) [
    | inl t ↦
        let here : event.run_id ≡ id = (==_iff event.run_id id).0 t in
        let next : r.next_event_sequence ≡ suc run.next_event_sequence =
          ground (arith, find-with_event id run event db owner) in
        rw (next, events_of-with_event id run event db, t)
          (Ascending-append 0 (events_of id db.run_events) (numbered run event)
            (s.ascends id run (rw here at owner)))
    | inr f ↦
        rw (events_of-with_event id run event db, f, append-nil)
          (s.ascends id r (ground (arith, find-with_event id run event db owner)))
  ];
  owned = λ id e. elim (Bool-cases (event.run_id == id)) [
    | inl t ↦ absurd (ground (arith, find-with_event id run event db owner))
    | inr f ↦
        rw (events_of-with_event id run event db, f, append-nil)
          (s.owned id (ground (arith, find-with_event id run event db owner)))
  ];
}

-- An append keeps the numbering, whether it adds a row or finds one.
pub append-IsSequenced :
    (event : Event) (db : Database) (event' : Event) (db' : Database)
    → append_event_tx event db ≡ ok (event', db')
    → IsSequenced db
    → IsSequenced db'
append-IsSequenced event db event' db' h s = elim (append_cases event db event' db' h) [
  | inl old ↦ rw old.unchanged s
  | inr new ↦ rw new.database (with_event-IsSequenced new.run event db new.owner s)
]
