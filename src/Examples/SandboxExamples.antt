-- ===== src/Examples/SandboxExamples.antt =====
-- Witnesses for the theorems on the fake provider.
use harness_forge.Base.{ℕ, ◌≡◌, refl, true, false, none, some, [], ◌∷◌, if◌then◌else◌}
use harness_forge.Base.Tables.{find, exists, update, where_rows}
use harness_forge.Sandbox.{
  Paths, Lease, Execution, Provider, answer, fault, conflict, commit, Decision, same_decision,
  awaiting_finalize, finalize, begin_execute, find_lease, leased, find_execution, new_execution,
  undecided,
}
use harness_forge.Sandbox.Finalization.{Finalized, finalize_decides}
use harness_forge.Sandbox.Exclusion.{IsExclusive, begin_execute_excludes}

abbrev paths : Paths
paths = record { inputs = "/in"; workspace = "/work"; outputs = "/out" }

abbrev lease : Lease
lease = record { run_id = 7; ref = "fake:7"; paths = paths; released = false }

abbrev idle : Provider
idle = record { leases = lease ∷ []; executions = []; sessions = [] }

abbrev executing_provider : Provider
executing_provider = record idle { executions = new_execution 7 ∷ [] }

begin_step : begin_execute 7 paths none idle ≡ answer executing_provider
unfolding begin_execute find exists
begin_step = refl

begin_execute_excludes_example :
    (leased paths (find_lease 7 idle) ≡ true)
    × (find_execution 7 executing_provider ≡ some (new_execution 7))
    × ((i : ℕ) (a : Execution)
        → find_execution i executing_provider ≡ some a
        → undecided a ≡ true
        → i ≡ 7)
    × IsExclusive executing_provider
begin_execute_excludes_example =
    begin_execute_excludes 7 paths none idle executing_provider begin_step

abbrev played_execution : Execution
played_execution = record (new_execution 7) {
  stage = awaiting_finalize;
  candidate = some "fake-session:7";
}

abbrev played_provider : Provider
played_provider = record idle { executions = played_execution ∷ [] }

abbrev committed_provider : Provider
committed_provider = record idle {
  executions = record played_execution { decision = some commit } ∷ [];
  sessions = "fake-session:7" ∷ [];
}

finalize_step : finalize 7 (some commit) played_provider ≡ answer committed_provider
unfolding finalize find update where_rows
finalize_step = refl

finalize_decides_example :
    Finalized 7 commit played_provider committed_provider
    × ((d : Decision)
        → finalize 7 (some d) committed_provider
          ≡ (if same_decision commit d then answer committed_provider else fault conflict))
finalize_decides_example =
    finalize_decides 7 commit played_provider committed_provider finalize_step
