-- ===== src/Examples/RepairExamples.antt =====
-- Witnesses for the theorems on the reconciler and the scheduler.
use harness_forge.Base.{ℕ, String, ◌≡◌, ◌≤◌, refl, true, false, none, some, List, [], ◌∷◌, arith}
use harness_forge.Base.Keys.{All}
use harness_forge.Schema.{failed, Run, Database, empty_database, ok, err, failure}
use harness_forge.Durable.{healthy}
use harness_forge.Sandbox.{awaiting_finalize}
use harness_forge.Reconciler.{
  Fact, fact, released, aborted, synced, executing, recovered, acknowledged, queried, listed,
  inconsistent, other, Site, good, LeaseInfo, Environment, ◌>>=◌, transact, call, attempt,
}
use harness_forge.Reconciler.Cleanup.{finish_lease, cleanup_conflict, find_record}
use harness_forge.Reconciler.Rounds.{reconcile, listing_valid}
use harness_forge.Reconciler.Steps.{legal}
use harness_forge.Reconciler.Finishing.{IsFinished}
use harness_forge.Reconciler.Protocol.{is_listed}
use harness_forge.Reconciler.Legal.{listing, reconcile-legal, finish_lease-IsFinished}
use harness_forge.Scheduler.{Turn, run_turns, new_loop, minute, Move, claim, execute, wait, halt}
use harness_forge.Scheduler.Order.{orderly, run_turns-orderly}
use harness_forge.Scheduler.Waits.{IsPaced, run_turns-IsPaced}
use harness_forge.Examples.Data.{claimed_run, format}
use harness_forge.Base.Tables.{exists, order_by, find, update, first, insert_sorted}
use harness_forge.RunCommit.{acknowledge_finalized, announce, stamp}
use harness_forge.Events.{
  append_event_tx, append_new, recorded_key, recorded_sequence, validate_event, announced,
}
use harness_forge.Base.Text.{is_blank, concat}

abbrev lease_of_run : LeaseInfo
lease_of_run = record { run_id = 7; ref = "fake:7" }

-- a provider with one lease, whose Runtime holds an execution that ended
abbrev cooperative : Environment
cooperative = record {
  list_leases = λ (h : List Fact). good (lease_of_run ∷ []);
  recover = λ (id : ℕ) (ref : String) (h : List Fact). good tt;
  list_executions = λ (id : ℕ) (h : List Fact).
      good (record { run_id = id; lifecycle = some awaiting_finalize } ∷ []);
  cancel = λ (id : ℕ) (h : List Fact). good tt;
  sync_back = λ (id : ℕ) (h : List Fact). good tt;
  commit = λ (id : ℕ) (h : List Fact). good tt;
  abort = λ (id : ℕ) (h : List Fact). good tt;
  session_exists = λ (s : String) (h : List Fact). good true;
  release = λ (id : ℕ) (h : List Fact). good tt;
  others = λ (h : List Fact) (db : Database). db;
  clock = λ (h : List Fact). 50;
  connection = λ (h : List Fact). healthy;
}

abbrev broken_run : Run
broken_run = record claimed_run {
  id = 7;
  status = failed;
  sandbox_provider = some "fake";
  sandbox_ref = some "fake:7";
}

abbrev broken : Database
broken = record empty_database { runs = broken_run ∷ [] }

abbrev untouched : Site
untouched = record { database = broken; history = [] }

-- the failed run is recovered, aborted, released and acknowledged
broken_history :
    (reconcile cooperative format "fake" false untouched).1.history
    ≡ fact acknowledged 7
      ∷ fact released 7
      ∷ fact aborted 7
      ∷ fact synced 7
      ∷ fact executing 7
      ∷ fact recovered 7
      ∷ fact queried 0
      ∷ fact listed 0
      ∷ fact queried 0
      ∷ []
unfolding reconcile ◌>>=◌ transact exists call listing_valid order_by insert_sorted cleanup_conflict
    find attempt finish_lease find_record acknowledge_finalized announce append_event_tx update
    append_new recorded_key first stamp recorded_sequence validate_event is_blank concat announced
broken_history = refl

reconcile-legal_example :
    legal
      (is_listed (listing cooperative))
      (reconcile cooperative format "fake" false untouched).1.history
    ≡ true
reconcile-legal_example = reconcile-legal cooperative format "fake" false broken

broken_end :
    finish_lease cooperative format broken_run untouched
    ≡ (good tt, (finish_lease cooperative format broken_run untouched).1)
unfolding finish_lease ◌>>=◌ cleanup_conflict call find_record attempt transact
    acknowledge_finalized find announce append_event_tx update stamp recorded_sequence recorded_key
    first append_new validate_event is_blank concat announced exists
broken_end = refl

finish_lease-IsFinished_example :
    IsFinished
      (λ (id : ℕ). true)
      broken_run
      (finish_lease cooperative format broken_run untouched).1.history
finish_lease-IsFinished_example =
    finish_lease-IsFinished (λ (id : ℕ). true) cooperative format broken_run broken
      (finish_lease cooperative format broken_run untouched).1 broken_end

-- a reconciliation that fails, a run that is executed, a claim that fails, and an inconsistency
abbrev turns : List Turn
turns =
    record { reconciled = other ∷ []; claim = ok none; executed = []; alive = true }
    ∷ record { reconciled = []; claim = ok (some claimed_run); executed = []; alive = true }
    ∷ record { reconciled = []; claim = err failure; executed = []; alive = true }
    ∷ record { reconciled = inconsistent ∷ []; claim = ok none; executed = []; alive = true }
    ∷ record { reconciled = []; claim = ok none; executed = []; alive = true }
    ∷ []

turns_moves :
    (run_turns 1 5 turns (new_loop 5)).moves
    ≡ halt
      ∷ Move.reconcile false false
      ∷ wait 5
      ∷ claim false
      ∷ Move.reconcile true true
      ∷ execute true
      ∷ claim true
      ∷ Move.reconcile false true
      ∷ wait 5
      ∷ Move.reconcile false false
      ∷ []
unfolding run_turns exists
turns_moves = refl

run_turns-orderly_example : orderly (run_turns 1 5 turns (new_loop 5)).moves ≡ true
run_turns-orderly_example = run_turns-orderly 1 5 turns

retry_small : 5 ≤ minute
retry_small = omega arith

run_turns-IsPaced_example : All (IsPaced 1 5) (run_turns 1 5 turns (new_loop 5)).moves
run_turns-IsPaced_example = run_turns-IsPaced 1 5 turns retry_small
