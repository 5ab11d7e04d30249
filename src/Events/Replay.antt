-- ===== src/Events/Replay.antt =====
-- AppendEventTx of services/control-plane/internal/runs/events.go: lemmas on the keys that it looks up.
use harness_forge.Base.{
  ◌≡◌, ◌⊎◌, inl, inr, true, none, some, [], ◌∷◌, arith, is_some, same_int_refl, eq_refl, ==-refl,
  Option-cases,
}
use harness_forge.Base.Tables.{find, first, first-append}
use harness_forge.Schema.{Run, Event, Database, ok}
use harness_forge.Events.{is_replay, is_duplicate, recorded_sequence, recorded_key, append_event_tx}
use harness_forge.Events.Sequence.Append.{append_cases, numbered, with_event, find-with_event}

module _ (run : Run) (event : Event) (db : Database) where
  recorded_sequence-with_event :
      recorded_sequence event db.run_events ≡ none
      → is_some event.runtime_sequence ≡ true
      → recorded_sequence event (with_event run event db).run_events ≡ some (numbered run event)
  unfolding recorded_sequence first
  recorded_sequence-with_event fresh keyed = elim (Option-cases event.runtime_sequence) [
    | inl e ↦ ground arith
    | inr (n, e) ↦ ground (
      arith,
      first-append (is_replay event.run_id n) db.run_events (numbered run event ∷ []),
      same_int_refl n,
      ==-refl event.run_id,
    )
  ]

  recorded_sequence_unkeyed :
      event.runtime_sequence ≡ none
      → recorded_sequence event (with_event run event db).run_events ≡ none
  unfolding recorded_sequence
  recorded_sequence_unkeyed e = ground arith

  recorded_key-with_event :
      recorded_key event db.run_events ≡ none
      → is_some event.dedupe_key ≡ true
      → recorded_key event (with_event run event db).run_events ≡ some (numbered run event)
  unfolding recorded_key first
  recorded_key-with_event fresh keyed = elim (Option-cases event.dedupe_key) [
    | inl e ↦ ground arith
    | inr (k, e) ↦ ground (
      arith,
      first-append (is_duplicate event.run_id k) db.run_events (numbered run event ∷ []),
      eq_refl k,
      ==-refl event.run_id,
    )
  ]

  append_event_tx-with_event :
      find (λ (r : Run). r.id) event.run_id db.runs ≡ some run
      → recorded_sequence event db.run_events ≡ none
      → recorded_key event db.run_events ≡ none
      → (is_some event.runtime_sequence ≡ true) ⊎ (is_some event.dedupe_key ≡ true)
      → append_event_tx event (with_event run event db)
        ≡ ok (numbered run event, with_event run event db)
  unfolding append_event_tx
  append_event_tx-with_event owner fresh fresh' keyed = elim (Option-cases event.runtime_sequence) [
    | inr (n, e) ↦ ground (
      arith,
      recorded_sequence-with_event fresh (rw e),
      find-with_event event.run_id run event db owner,
      ==-refl event.run_id,
    )
    | inl e ↦ ground (
      arith,
      recorded_sequence_unkeyed e,
      recorded_key-with_event fresh' (ground arith),
      find-with_event event.run_id run event db owner,
      ==-refl event.run_id,
    )
  ]

-- After an append of an event with a Runtime sequence or a deduplication key, the same append
-- returns the same row and changes nothing.
pub append_again :
    (event : Event) (db : Database) (event' : Event) (db' : Database)
    → (is_some event.runtime_sequence ≡ true) ⊎ (is_some event.dedupe_key ≡ true)
    → append_event_tx event db ≡ ok (event', db')
    → append_event_tx event db' ≡ ok (event', db')
append_again event db event' db' keyed h = elim (append_cases event db event' db' h) [
  | inl old ↦ rw old.unchanged (rw old.unchanged at h)
  | inr new ↦
      rw (new.row, new.database)
        (append_event_tx-with_event new.run event db new.owner new.fresh_sequence new.fresh_key
          keyed)
]
