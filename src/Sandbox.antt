-- ===== src/Sandbox.antt =====
-- services/control-plane/internal/sandbox/fake.go: the provider that plays recorded scenarios, with
-- the requests of internal/agentexec. A lock is held for a whole operation, so each is one function.
pub mod Play
pub mod Finalization
pub mod Exclusion
use Prim.Native.Char.{code}
use harness_forge.Base.{
  ℕ, ◌+◌, String, Bool, true, false, not, ◌&&◌, ◌||◌, Option, none, some, List, [], ◌∷◌, ◌++◌, leb,
  ◌==◌, if◌then◌else◌, is_some, same_text, holds,
}
use harness_forge.Base.Tables.{find, update, exists, where_rows}
use harness_forge.Base.Text.{is_absolute, concat, is_blank}

pub record Paths : Type 0 where
  pub inputs : String
  pub workspace : String
  pub outputs : String

abbrev paths_valid : Paths → Bool
paths_valid p = is_absolute p.inputs && is_absolute p.workspace && is_absolute p.outputs

abbrev same_paths : Paths → Paths → Bool
same_paths a b =
    same_text a.inputs b.inputs
    && same_text a.workspace b.workspace
    && same_text a.outputs b.outputs

pub data Decision : Type 0 where
  commit abort : Decision

abbrev pub same_decision : Decision → Decision → Bool
same_decision commit commit = true
same_decision abort abort = true
same_decision _ _ = false

-- `Starting` is a lifecycle that the fake provider never has
pub data Stage : Type 0 where
  starting executing awaiting_finalize : Stage

abbrev is_awaiting : Stage → Bool
is_awaiting awaiting_finalize = true
is_awaiting _ = false

pub record Execution : Type 0 where
  pub run_id : ℕ
  pub stage : Stage
  pub candidate : Option String
  pub decision : Option Decision
  pub cancelled : Bool

pub record Lease : Type 0 where
  pub run_id : ℕ
  pub ref : String
  pub paths : Paths
  pub released : Bool

-- `sessions` are the keys of the map whose value is true
pub record Provider : Type 0 where
  pub leases : List Lease
  pub executions : List Execution
  pub sessions : List String

pub data Fault : Type 0 where
  invalid not_found conflict unavailable outcome_unknown : Fault
  finalized : Decision → Fault

pub data Answer {ℓ} (A : Type ℓ) : Type ℓ where
  answer : A → Answer A
  fault : Fault → Answer A

abbrev pub find_lease : ℕ → Provider → Option Lease
find_lease id p = find (λ (l : Lease). l.run_id) id p.leases

abbrev pub find_execution : ℕ → Provider → Option Execution
find_execution id p = find (λ (e : Execution). e.run_id) id p.executions

abbrev pub update_execution : ℕ → (Execution → Execution) → Provider → Provider
update_execution id f p = record p {
  executions = update (λ (e : Execution). e.run_id) id f p.executions;
}

-- Acquire: an acquisition is repeated by the same request; `ended` says that the context is done
unfoldable acquire : (ℕ → String) → Bool → ℕ → Paths → Provider → Answer (Lease × Provider)
acquire uuid_text ended id paths p =
    let fresh : Lease = record {
      run_id = id;
      ref = concat "fake:" (uuid_text id);
      paths = paths;
      released = false;
    } in
    if ended
    then fault unavailable
    else if not (paths_valid paths) || id == 0
    then fault conflict
    else elim (find_lease id p) [
      | none ↦ answer (fresh, record p { leases = p.leases ++ fresh ∷ [] })
      | some l ↦ if same_paths l.paths paths then answer (l, p) else fault conflict
    ]

-- Recover
unfoldable recover : ℕ → String → Paths → Provider → Answer Lease
recover id ref paths p = elim (find_lease id p) [
  | none ↦ fault not_found
  | some l ↦
      if not (same_text l.ref ref)
      then fault not_found
      else if same_paths l.paths paths
      then answer l
      else fault conflict
]

-- List; the order of the answer, by the text of the identifiers, is left out
unfoldable list_leases : Provider → List Lease
list_leases p = where_rows (λ (l : Lease). not l.released) p.leases

-- Release of a lease
unfoldable release : ℕ → Provider → Provider
release id p = record p {
  leases =
      update (λ (l : Lease). l.run_id) id (λ (l : Lease). record l { released = true }) p.leases;
}

abbrev pub undecided : Execution → Bool
undecided e = not (is_some e.decision)

abbrev pub has_session : String → Provider → Bool
has_session s p = exists (same_text s) p.sessions

abbrev knows_source : Option String → Provider → Bool
knows_source none p = true
knows_source (some s) p = has_session s p

abbrev pub leased : Paths → Option Lease → Bool
leased paths none = false
leased paths (some l) = not l.released && same_paths l.paths paths

abbrev pub new_execution : ℕ → Execution
new_execution id = record {
  run_id = id;
  stage = executing;
  candidate = none;
  decision = none;
  cancelled = false;
}

abbrev pub taken : Option Decision → Fault
taken none = conflict
taken (some d) = finalized d

-- Execute, from the lock of the provider to the record of the execution. The request is valid and
-- its scenario is loaded.
unfoldable pub begin_execute : ℕ → Paths → Option String → Provider → Answer Provider
begin_execute id paths source p = elim (find_execution id p) [
  | some old ↦ fault (taken old.decision)
  | none ↦
      if not (leased paths (find_lease id p))
      then fault invalid
      else if exists undecided p.executions
      then fault conflict
      else if not (knows_source source p)
      then fault not_found
      else answer (record p { executions = p.executions ++ new_execution id ∷ [] })
]

unfoldable pub decide : Decision → Execution → Execution
decide d e = record e { decision = some d }

abbrev pub drop_session : String → List String → List String
drop_session s sessions = where_rows (λ (t : String). not (same_text s t)) sessions

-- sessions[session] = true, or delete(sessions, session)
abbrev pub settle_session : Decision → Option String → List String → List String
settle_session d none sessions = sessions
settle_session commit (some s) sessions = drop_session s sessions ++ s ∷ []
settle_session abort (some s) sessions = drop_session s sessions

abbrev finalize_open : ℕ → Decision → Execution → Provider → Answer Provider
finalize_open id d e p =
    if not (is_awaiting e.stage) || (same_decision d commit && not (is_some e.candidate))
    then fault conflict
    else answer (record (update_execution id (decide d) p) {
      sessions = settle_session d e.candidate p.sessions;
    })

abbrev finalize_again : Decision → Decision → Provider → Answer Provider
finalize_again made d p = if same_decision made d then answer p else fault conflict

-- Finalize; `none` is a text that is no decision
unfoldable pub finalize : ℕ → Option Decision → Provider → Answer Provider
unfolding decide
finalize id none p = fault invalid
finalize id (some d) p = elim (find_execution id p) [
  | none ↦ fault not_found
  | some e ↦ elim e.decision [ none ↦ finalize_open id d e p | some made ↦ finalize_again made d p ]
]

unfoldable stop_execution : Execution → Execution
stop_execution e = record e { cancelled = true }

-- Cancel; `ended` says that the context of the caller is done before the execution is
unfoldable cancel_execution : Bool → ℕ → Provider → Answer (Unit {0}) × Provider
unfolding stop_execution
cancel_execution ended id p =
    if not (is_some (find_execution id p))
    then (fault not_found, p)
    else (if ended then fault outcome_unknown else answer tt, update_execution id stop_execution p)

-- ListExecutions
unfoldable list_executions : Provider → List Execution
list_executions p = where_rows undecided p.executions

-- DeleteSession
unfoldable delete_session : String → Provider → Provider
delete_session s p = record p { sessions = drop_session s p.sessions }

abbrev is_running : Option Execution → Bool
is_running none = false
is_running (some e) = undecided e

-- DeleteExecution
unfoldable delete_execution : ℕ → Provider → Answer Provider
delete_execution id p =
    if is_running (find_execution id p)
    then fault conflict
    else answer (record p {
      executions = where_rows (λ (e : Execution). not (e.run_id == id)) p.executions;
      leases = where_rows (λ (l : Lease). not (l.run_id == id)) p.leases;
    })
