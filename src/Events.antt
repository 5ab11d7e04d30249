-- ===== src/Events.antt =====
-- services/control-plane/internal/runs/events.go: the event log of a run.
pub mod Sequence
pub mod Replay
use harness_forge.Base.{
  ℕ, suc, ◌+◌, ◌-◌, ◌^◌, ℤ, String, Bool, true, false, not, ◌&&◌, ◌||◌, Option, none, some, List,
  [], ◌∷◌, ◌++◌, ◌==◌, ltb, leb, same_int, is_negative, same_text, if◌then◌else◌, is_some, holds,
}
use harness_forge.Base.Tables.{find, update, exists, where_rows, first, order_by}
use harness_forge.Base.Text.{is_blank, cut_prefix}
use harness_forge.Base.Json.{RawMessage, malformed, document, is_object}
use harness_forge.Schema.{
  Status, queued, running, succeeded, failed, cancelled, interrupted, same_status, Run, Event,
  Database, Error, conflict, failure, Result, ok, err, found, refuse_if, ◌>>=◌, ◌>>◌,
}
use harness_forge.State.{terminal}

-- math.MaxInt64, the largest bigint
abbrev pub max_int64 : ℕ
max_int64 = 2 ^ 63 - 1

-- json.Valid(p) && bytes.HasPrefix(bytes.TrimSpace(p), "{")
abbrev is_object_text : RawMessage → Bool
is_object_text malformed = false
is_object_text (document v) = is_object v

-- Status(s), where s is the text of a terminal status
unfoldable outcome_of : String → Option Status
outcome_of s =
    if same_text s "succeeded"
    then some succeeded
    else if same_text s "failed"
    then some failed
    else if same_text s "cancelled"
    then some cancelled
    else if same_text s "interrupted"
    then some interrupted
    else none

-- The outcome that an event of the kind `run.<outcome>` announces.
unfoldable pub announced : String → Option Status
unfolding cut_prefix outcome_of
announced kind = elim (cut_prefix "run." kind) [ none ↦ none | some rest ↦ outcome_of rest ]

-- An outcome is announced only of a finalized run that has it.
abbrev premature : Run → Option Status → Bool
premature run none = false
premature run (some s) = not (is_some run.finalized_at) || not (same_status run.status s)

unfoldable pub validate_event : Run → Event → Result (Unit {0})
validate_event run event = do
  refuse_if
      (is_blank event.kind
        || not (is_object_text event.payload)
        || event.occurred_at == 0
        || holds is_negative event.runtime_sequence)
      conflict
  refuse_if (premature run (announced event.kind)) conflict

abbrev pub of_run : ℕ → Event → Bool
of_run id e = e.run_id == id

-- WHERE run_id=$1 AND runtime_sequence=$2
abbrev pub is_replay : ℕ → ℤ → Event → Bool
is_replay id n e = e.run_id == id && holds (same_int n) e.runtime_sequence

-- WHERE run_id=$1 AND dedupe_key=$2
abbrev pub is_duplicate : ℕ → String → Event → Bool
is_duplicate id key e = e.run_id == id && holds (same_text key) e.dedupe_key

-- The row that an append of `event` would repeat, by the one key and then by the other.
unfoldable pub recorded_sequence : Event → List Event → Option Event
recorded_sequence event rows = elim event.runtime_sequence [
  | none ↦ none
  | some n ↦ first (is_replay event.run_id n) rows
]

unfoldable pub recorded_key : Event → List Event → Option Event
recorded_key event rows = elim event.dedupe_key [
  | none ↦ none
  | some k ↦ first (is_duplicate event.run_id k) rows
]

-- UPDATE runs SET next_event_sequence=next_event_sequence+1; a bigint that overflows is an error
unfoldable pub count_event : Run → Run
count_event run = record run { next_event_sequence = run.next_event_sequence + 1 }

-- INSERT INTO run_events, whose primary key is (run_id, sequence)
unfoldable insert_event : Event → Database → Result (Event × Database)
insert_event event db =
    if exists (λ (e : Event). e.run_id == event.run_id && e.sequence == event.sequence)
      db.run_events
    then err failure
    else ok (event, record db { run_events = db.run_events ++ event ∷ [] })

unfoldable pub append_new : Run → Event → Database → Result (Event × Database)
unfolding count_event insert_event
append_new run event db = do
  validate_event run event
  refuse_if (leb max_int64 run.next_event_sequence) failure
  insert_event (record event { sequence = run.next_event_sequence })
      (record db { runs = update (λ (r : Run). r.id) event.run_id count_event db.runs })

abbrev append_unless :
    Option Event → Result (Event × Database) → Database → Result (Event × Database)
append_unless (some existing) insertion db = ok (existing, db)
append_unless none insertion db = insertion

-- AppendEventTx
unfoldable pub append_event_tx : Event → Database → Result (Event × Database)
append_event_tx event db = do
  run ← found (find (λ (r : Run). r.id) event.run_id db.runs)
  append_unless (recorded_sequence event db.run_events)
      (append_unless (recorded_key event db.run_events) (append_new run event db) db) db

-- ListEvents
unfoldable pub list_events : ℕ → ℕ → Database → List Event
list_events id after db =
    order_by (λ (a b : Event). leb a.sequence b.sequence)
      (where_rows (λ (e : Event). of_run id e && ltb after e.sequence) db.run_events)
