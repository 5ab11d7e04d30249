-- ===== src/State/Outcome.antt =====
-- Finish of services/control-plane/internal/runs/state.go: lemmas on its result.
use harness_forge.Base.{ℕ, ◌≡◌, ◌≢◌, ◌⊎◌, true, none, some, arith, is_some, if◌then◌else◌}
use harness_forge.Schema.{Status, queued, running, succeeded, cancelled, same_status, Run, ok}
use harness_forge.State.{Cleanup, absent, present, commit, abort, terminal, finish}

-- When `Finish` succeeds the run has the given status, which is an outcome; before, the run had that
-- status too, or was running, or it was queued and the given status is cancelled.
pub finish-Outcome :
    (run : Run) (status : Status) (cleanup : Cleanup) (now : ℕ) (after : Run)
    → finish run status cleanup now ≡ ok after
    → (after.status ≡ status)
      × (terminal status ≡ true)
      × ((run.status ≡ status)
          ⊎ (run.status ≡ running)
          ⊎ ((run.status ≡ queued) × (status ≡ cancelled)))
unfolding finish
finish-Outcome run status cleanup now after h = ground arith

-- The Runtime is done with: it was never there, or it is there and was told the decision that fits the
-- outcome.
abbrev pub IsRuntimeDone : Status → Cleanup → Type 0
IsRuntimeDone status cleanup =
    (cleanup.runtime ≡ absent)
    ⊎ ((cleanup.runtime ≡ present)
        × (cleanup.disposition ≡ (if same_status status succeeded then commit else abort)))

-- The lease is done with: it was never there, nor a reference to it nor a Runtime, or it is there and
-- was released.
abbrev pub IsLeaseDone : Run → Cleanup → Type 0
IsLeaseDone run cleanup =
    ((cleanup.lease ≡ absent) × (run.sandbox_ref ≡ none) × (cleanup.runtime ≢ present))
    ⊎ ((cleanup.lease ≡ present) × (cleanup.released ≡ true))

-- When `Finish` finalizes a run that was not finalized nor queued, it does so at the given time; the
-- Runtime was never there, or was told to commit when the run succeeded and to abort when not; the lease
-- was never there, with no reference and no Runtime, or was released; and a run that succeeded had both.
pub finish_finalized :
    (run : Run) (status : Status) (cleanup : Cleanup) (now : ℕ) (after : Run)
    → run.finalized_at ≡ none
    → run.status ≢ queued
    → finish run status cleanup now ≡ ok after
    → is_some after.finalized_at ≡ true
    → (after.finalized_at ≡ some now)
      × IsRuntimeDone status cleanup
      × IsLeaseDone run cleanup
      × (status ≡ succeeded → (cleanup.runtime ≡ present) × (cleanup.lease ≡ present))
unfolding finish
finish_finalized run status cleanup now after e q h f = ground arith
