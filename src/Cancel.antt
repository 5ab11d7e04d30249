-- ===== src/Cancel.antt =====
-- services/control-plane/internal/runs/cancel.go, and Cancel of coordinator.go: a user cancels a
-- run. `Connection` and the Bool `reachable` say what the database does in the calls of the request.
pub mod Recorded
pub mod Answer
use harness_forge.Base.{
  ℕ, String, Bool, true, false, not, ◌||◌, Option, none, some, if◌then◌else◌, is_some,
}
use harness_forge.Base.Json.{Json, text, obj, Fields, done, field}
use harness_forge.Schema.{
  Status, queued, running, cancelled, same_status, publishing, is_phase, Run, Database, Error,
  conflict, unavailable, failure, Result, ok, err, found, refuse_if, ◌>>=◌, ◌>>◌, find_run,
}
use harness_forge.RunChanges.{record_failure}
use harness_forge.Durable.{World, Connection, unreachable, change, cancel_queued_durably}

-- Store.Read: a SELECT outside any transaction
unfoldable pub read : Bool → ℕ → Database → Result Run
read reachable id db = if reachable then found (find_run id db) else err failure

-- failureDetail("user_cancelled")
abbrev pub failure_detail : String → Json
failure_detail code = obj (field "code" (text code) done)

abbrev is_cancelled : Run → Bool
is_cancelled r = same_status r.status cancelled

-- `confirmed` is what the second read finds, when the first answer was an error
unfoldable pub confirm : Result Run → Result Run → Result Run
confirm (ok r) confirmed = if is_cancelled r then ok r else err conflict
confirm (err e) (ok r) = if is_cancelled r then ok r else err e
confirm (err e) (err e') = err e

abbrev succeeded_with : Result Run → Bool
succeeded_with (ok r) = true
succeeded_with (err e) = false

-- Coordinator.Cancel: record the outcome, confirm it if the answer is an error, and only then stop
-- the worker. The Bool says whether the worker of the run, if there is one, was told to stop.
unfoldable pub coordinator_cancel : Connection → Bool → ℕ → ℕ → World → Result Run × Bool × World
unfolding confirm
coordinator_cancel conn reachable id now w =
    let (r, w') =
      change conn id (record_failure id cancelled (failure_detail "user_cancelled") now) w in
    let result = confirm r (read reachable id w'.db) in (result, succeeded_with result, w')

-- ActiveCancel
abbrev pub Active : Type 0
Active = Run → World → Result Run × World

-- What other requests and the scheduler do between the calls of one cancel request.
pub record Interference : Type 0 where
  pub before_cancel : World → World
  pub before_reread : World → World
  pub before_active : World → World

unfoldable pub run_active : Option Active → Run → World → Result Run × World
run_active none run w = (err unavailable, w)
run_active (some active) run w = active run w

-- from `if run.Status == Cancelled` on
unfoldable pub cancel_active : Option Active → Run → World → Result Run × World
unfolding run_active
cancel_active active run w =
    if is_cancelled run
    then (if is_some run.finalized_at then (ok run, w) else run_active active run w)
    else if not (same_status run.status running)
        || not (is_some run.phase)
        || is_phase publishing run.phase
        || is_some run.finalized_at
    then (err conflict, w)
    else run_active active run w

unfoldable pub after_read : Option Active → Interference → Result Run → World → Result Run × World
unfolding cancel_active
after_read active others (err e) w = (err e, w)
after_read active others (ok run) w = cancel_active active run (others.before_active w)

-- CancelQueued answered; a conflict sends the request on to the run as it stands now
unfoldable pub after_cancel_queued :
    Option Active → Interference → Bool → ℕ → Result Run → World → Result Run × World
unfolding after_read
after_cancel_queued active others reachable id (err conflict) w =
    let w' = others.before_reread w in after_read active others (read reachable id w'.db) w'
after_cancel_queued active others reachable id answer w = (answer, w)

unfoldable pub cancel_run :
    Option Active
    → Interference
    → Connection
    → Bool
    → ℕ
    → ℕ
    → Result Run
    → World
    → Result Run × World
unfolding after_read after_cancel_queued
cancel_run active others conn reachable id now (err e) w = (err e, w)
cancel_run active others conn reachable id now (ok run) w =
    if same_status run.status queued
    then (let (answer, w') = cancel_queued_durably conn id now (others.before_cancel w) in
        after_cancel_queued active others reachable id answer w')
    else after_read active others (ok run) w

-- Canceller.Cancel
unfoldable pub cancel :
    Option Active → Interference → Connection → Bool → ℕ → ℕ → World → Result Run × World
unfolding cancel_run read
cancel active others conn reachable id now w =
    cancel_run active others conn reachable id now (read reachable id w.db) w
