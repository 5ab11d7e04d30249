-- ===== src/Durable.antt =====
-- How a transaction of a run reaches the database and its subscribers: `change` of
-- services/control-plane/internal/runs/coordinator_store.go, and the like frame of AppendEvent
-- (events.go) and CancelQueued (cancel.go).
pub mod Announced
use harness_forge.Base.{ℕ, Bool, true, false, ◌&&◌, Option, none, some, if◌then◌else◌, is_some}
use harness_forge.Schema.{
  Status, cancelled, same_status, Run, Event, Database, failure, Result, ok, err, found, ◌>>=◌,
  find_run,
}
use harness_forge.Events.{append_event_tx}
use harness_forge.RunCommit.{cancel_queued}
use harness_forge.Broker.{Broker, notify}

pub record World : Type 0 where
  pub db : Database
  pub broker : Broker

-- What the connection does: BEGIN fails, COMMIT is refused, COMMIT is done and its
-- acknowledgement is lost, or all is well.
pub data Connection : Type 0 where
  unreachable commit_refused acknowledgement_lost healthy : Connection

-- the commit attempt; Notify follows it whatever its result
unfoldable pub commit {ℓ} : {A : Type ℓ} → Connection → ℕ → A → Database → World → Result A × World
commit unreachable id a db w = (err failure, w)
commit commit_refused id a db w = (err failure, record w { broker = notify id w.broker })
commit acknowledgement_lost id a db w =
    (err failure, record { db = db; broker = notify id w.broker })
commit healthy id a db w = (ok a, record { db = db; broker = notify id w.broker })

unfoldable pub finish_tx {ℓ} :
    {A : Type ℓ} → Connection → ℕ → Result (A × Database) → World → Result A × World
unfolding commit
finish_tx conn id (err e) w = (err e, w)
finish_tx conn id (ok (a, db)) w = commit conn id a db w

abbrev pub is_reachable : Connection → Bool
is_reachable unreachable = false
is_reachable _ = true

-- change
unfoldable pub change {ℓ} :
    {A : Type ℓ} → Connection → ℕ → (Database → Result (A × Database)) → World → Result A × World
unfolding finish_tx
change conn id tx w = if is_reachable conn then finish_tx conn id (tx w.db) w else (err failure, w)

-- AppendEvent
unfoldable append_event : Connection → Event → World → Result Event × World
append_event conn event w = change conn event.run_id (append_event_tx event) w

abbrev pub is_done : Option Run → Bool
is_done none = false
is_done (some r) = same_status r.status cancelled && is_some r.finalized_at

-- CancelQueued; a run that was cancelled and finalized is returned without a commit
unfoldable pub cancel_queued_durably : Connection → ℕ → ℕ → World → Result Run × World
cancel_queued_durably conn id now w =
    if is_reachable conn && is_done (find_run id w.db)
    then ((do r ← found (find_run id w.db); ok r), w)
    else change conn id (cancel_queued id now) w

-- a transaction with no result but the database
abbrev pub silent : (Database → Result Database) → Database → Result (Unit {0} × Database)
silent tx db = do db' ← tx db; ok (tt, db')
