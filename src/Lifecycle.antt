-- ===== src/Lifecycle.antt =====
-- The life of a run, as the rows of `runs` show it: what a transaction of
-- services/control-plane/internal/runs may do to the status, the phase and the end of a run.
pub mod Rows
pub mod Moves
pub mod Steps
use harness_forge.Base.{ℕ, ◌≡◌, ◌≢◌, ◌⊎◌, true, Option, none, some, is_some}
use harness_forge.Schema.{
  Status, queued, running, succeeded, cancelled, Phase, preparing, agent, publishing, Run, Database,
  find_run,
}
use harness_forge.State.{terminal}
use harness_forge.Base.Keys.{Keyed}
use harness_forge.Events.Sequence.{IsSequenced}

-- Nothing that the state machine is about has changed.
pub record Stays (r r' : Run) : Type 0 where
  pub status : r'.status ≡ r.status
  pub phase : r'.phase ≡ r.phase
  pub finalized_at : r'.finalized_at ≡ r.finalized_at

-- What one transaction on a known run may do to it.
pub data Move (r r' : Run) : Type 0 where
  stays : Stays r r' → Move r r'
  advances :
      r.status ≡ running
      → r'.status ≡ running
      → ((r.phase ≡ some preparing) × (r'.phase ≡ some agent))
        ⊎ ((r.phase ≡ some agent) × (r'.phase ≡ some publishing))
      → r'.finalized_at ≡ r.finalized_at
      → Move r r'
  fails :
      r.status ≡ running
      → terminal r'.status ≡ true
      → r'.status ≢ succeeded
      → (r'.status ≡ cancelled → r.phase ≢ some publishing)
      → r'.phase ≡ r.phase
      → r'.finalized_at ≡ r.finalized_at
      → Move r r'
  succeeds :
      r.status ≡ running
      → r.phase ≡ some publishing
      → r.finalized_at ≡ none
      → r'.status ≡ succeeded
      → r'.phase ≡ r.phase
      → r'.finalized_at ≡ r.finalized_at
      → Move r r'
  ends :
      terminal r.status ≡ true
      → r.finalized_at ≡ none
      → r'.status ≡ r.status
      → r'.phase ≡ r.phase
      → is_some r'.finalized_at ≡ true
      → Move r r'
  withdraws :
      r.status ≡ queued
      → r'.status ≡ cancelled
      → r'.phase ≡ r.phase
      → is_some r'.finalized_at ≡ true
      → Move r r'

-- What a claim does to a run.
pub record Claims (r r' : Run) : Type 0 where
  pub idle : r.status ≡ queued
  pub status : r'.status ≡ running
  pub phase : r'.phase ≡ some preparing
  pub finalized_at : r'.finalized_at ≡ r.finalized_at

-- A transaction on the run `id`: the other runs keep their rows, and its own makes a step of `P`.
pub record RowStep (P : Run → Run → Type 0) (id : ℕ) (db db' : Database) : Type 0 where
  pub elsewhere : (i : ℕ) → id ≢ i → find_run i db' ≡ find_run i db
  pub here : (r' : Run) → find_run id db' ≡ some r' → (r : Run) × (find_run id db ≡ some r) × P r r'
  pub remains : is_some (find_run id db) ≡ true → is_some (find_run id db') ≡ true
  -- the keys stay distinct, and the numbering of events stays in order
  pub keyed : Keyed (λ (r : Run). r.id) db.runs → Keyed (λ (r : Run). r.id) db'.runs
  pub sequenced : IsSequenced db → IsSequenced db'
