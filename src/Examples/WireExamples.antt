-- ===== src/Examples/WireExamples.antt =====
-- Witnesses for the theorems on events, streams, connections, cancels and wakeups.
use mathlib.Core.Path.{◌≡◌, refl}
use harness_forge.Base.{ℕ, ◌≢◌, ◌⊎◌, inr, true, some, [], ◌∷◌}
use harness_forge.Base.Tables.{find, update, first, exists}
use harness_forge.Base.Text.{is_blank}
use harness_forge.Schema.{
  running, succeeded, failed, cancelled, Run, Event, Database, Result, ok, find_run,
}
use harness_forge.State.{Cleanup, present, abort, terminal, finish}
use harness_forge.State.Outcome.{finish-Outcome, finish_finalized, IsRuntimeDone, IsLeaseDone}
use harness_forge.Events.{
  append_event_tx, recorded_sequence, recorded_key, append_new, validate_event, announced,
  list_events,
}
use harness_forge.Events.Replay.{append_again}
use harness_forge.Stream.{poll}
use harness_forge.Stream.Delivery.{Streams, begun, appended, polled, opened, stream_exact}
use harness_forge.Base.Keys.{All}
use harness_forge.RunChanges.{record_failure}
use harness_forge.Broker.{Broker, Channel, new_broker, subscribe, notify}
use harness_forge.Broker.Wakeups.{channels_of, all_handles, notify_wakes}
use harness_forge.Durable.Announced.{Announced, change-Announced}
use harness_forge.Durable.{World, healthy, acknowledgement_lost, change}
use harness_forge.Cancel.{Interference, cancel, read, coordinator_cancel, Active, failure_detail}
use harness_forge.Cancel.Recorded.{coordinator_cancel_recorded}
use harness_forge.Cancel.Answer.{cancel_answer, IsHonest}
use harness_forge.Examples.Data.{submitted, hello, waiting, active, claimed_run}
use harness_forge.Examples.RunExamples.{submitted-IsSequenced}

abbrev recorded : Event
recorded = record hello { sequence = 1 }

abbrev greeted : Database
greeted = record submitted {
  runs = record waiting { next_event_sequence = 2 } ∷ [];
  run_events = recorded ∷ [];
}

hello_step : append_event_tx hello submitted ≡ ok (recorded, greeted)
unfolding append_event_tx find recorded_sequence recorded_key first append_new validate_event
    is_blank announced exists update
hello_step = refl

append_again_example : append_event_tx hello greeted ≡ ok (recorded, greeted)
append_again_example = append_again hello submitted recorded greeted (inr refl) hello_step

waits : find_run 7 submitted ≡ some waiting
unfolding find
waits = refl

abbrev followed : Streams 7 submitted (opened 0) greeted (poll 7 submitted (opened 0))
followed = appended (polled begun) hello recorded greeted hello_step

stream_exact_example : (poll 7 greeted (poll 7 submitted (opened 0))).sent ≡ list_events 7 0 greeted
stream_exact_example =
    stream_exact 7 0 submitted waiting greeted (poll 7 submitted (opened 0)) submitted-IsSequenced
      waits followed

abbrev aborted : Cleanup
aborted = record { lease = present; runtime = present; disposition = abort; released = true }

abbrev aborted_run : Run
aborted_run = record claimed_run { status = failed; finalized_at = some 50; updated_at = 50 }

finish_step : finish claimed_run failed aborted 50 ≡ ok aborted_run
unfolding finish
finish_step = refl

finish-Outcome_example :
    (aborted_run.status ≡ failed)
    × (terminal failed ≡ true)
    × ((claimed_run.status ≡ failed)
        ⊎ (claimed_run.status ≡ running)
        ⊎ ((claimed_run.status ≡ waiting.status) × (failed ≡ cancelled)))
finish-Outcome_example = finish-Outcome claimed_run failed aborted 50 aborted_run finish_step

finish_finalized_example :
    (aborted_run.finalized_at ≡ some 50)
    × IsRuntimeDone failed aborted
    × IsLeaseDone claimed_run aborted
    × (failed ≡ succeeded → (aborted.runtime ≡ present) × (aborted.lease ≡ present))
finish_finalized_example =
    finish_finalized claimed_run failed aborted 50 aborted_run refl (λ p. cc) finish_step refl

abbrev world : World
world = record { db = active; broker = new_broker }

abbrev stopped : Run
stopped = record claimed_run {
  status = cancelled;
  error = some (failure_detail "user_cancelled");
  updated_at = 40;
}

stop_step : (coordinator_cancel acknowledgement_lost true 7 40 world).0 ≡ ok stopped
unfolding coordinator_cancel change record_failure find update read
stop_step = refl

coordinator_cancel_recorded_example :
    (find_run 7 (coordinator_cancel acknowledgement_lost true 7 40 world).2.db ≡ some stopped)
    × (stopped.status ≡ cancelled)
coordinator_cancel_recorded_example =
    coordinator_cancel_recorded acknowledgement_lost true 7 40 world stopped stop_step

abbrev worker : Active
worker run w = let answer = coordinator_cancel healthy true run.id 40 w in (answer.0, answer.2)

worker-IsHonest : IsHonest (some worker)
worker-IsHonest run w r h = (coordinator_cancel_recorded healthy true run.id 40 w r h).1

abbrev alone : Interference
alone = record { before_cancel = λ w. w; before_reread = λ w. w; before_active = λ w. w }

cancel_step : (cancel (some worker) alone healthy true 7 40 world).0 ≡ ok stopped
unfolding cancel find coordinator_cancel change record_failure update
cancel_step = refl

cancel_answer_example : stopped.status ≡ cancelled
cancel_answer_example =
    cancel_answer (some worker) alone healthy true 7 40 world stopped worker-IsHonest cancel_step

abbrev listener : ℕ × Broker
listener = subscribe 7 new_broker

notify_wakes_example :
    All (λ (c : Channel). c.pending ≡ true) (channels_of 7 (notify 7 listener.1))
    × (all_handles (channels_of 7 (notify 7 listener.1)) ≡ all_handles (channels_of 7 listener.1))
    × ((other : ℕ)
        → 7 ≢ other
        → channels_of other (notify 7 listener.1) ≡ channels_of other listener.1)
notify_wakes_example = notify_wakes 7 listener.1

abbrev stop_tx : Database → Result (Run × Database)
stop_tx = record_failure 7 cancelled (failure_detail "user_cancelled") 40

change-Announced_example :
    (((change healthy 7 stop_tx world).1.db ≡ world.db)
      × ((r : Run) → (change healthy 7 stop_tx world).0 ≢ ok r))
    ⊎ Announced 7 stop_tx world (change healthy 7 stop_tx world).1
change-Announced_example = change-Announced healthy 7 stop_tx world
