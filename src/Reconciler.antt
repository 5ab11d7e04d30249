-- ===== src/Reconciler.antt =====
-- services/control-plane/internal/runs/reconcile.go. What the sandbox provider, a Runtime and the
-- database connection do is given by an environment that sees all that happened before.
pub mod Cleanup
pub mod Rounds
pub mod Steps
pub mod Aborting
pub mod Finishing
pub mod Protocol
pub mod Legal
use harness_forge.Base.{
  ℕ, String, Bool, true, false, ◌&&◌, Option, none, some, List, [], ◌∷◌, ◌==◌, if◌then◌else◌,
}
use harness_forge.Base.Tables.{exists}
use harness_forge.Schema.{Database, Error, Result, ok, err}
use harness_forge.Durable.{Connection, unreachable, commit_refused, acknowledgement_lost, healthy}
use harness_forge.Sandbox.{Stage}

-- The errors that errors.Is tells apart here: ErrConsistency, ErrConflict and ErrNotFound of
-- agentexec, ErrNotFound of sandbox; `other` is any more. The last is a nil pointer.
pub data Trouble : Type 0 where
  inconsistent runtime_conflict no_record no_sandbox other nil_pointer : Trouble

abbrev trouble_code : Trouble → ℕ
trouble_code inconsistent = 0
trouble_code runtime_conflict = 1
trouble_code no_record = 2
trouble_code no_sandbox = 3
trouble_code other = 4
trouble_code nil_pointer = 5

abbrev pub same_trouble : Trouble → Trouble → Bool
same_trouble a b = trouble_code a == trouble_code b

-- errors.Is of an error that joins those of the list; no error is the empty list
abbrev pub is_trouble : Trouble → List Trouble → Bool
is_trouble t errors = exists (same_trouble t) errors

-- What was done about a run, and `failed` for what did not work.
pub data Act : Type 0 where
  failed listed queried attached recovered idle executing stopped synced promoted unpromoted
        committed aborted session_found session_missing released recorded noted marked
        acknowledged :
      Act

abbrev pub act_code : Act → ℕ
act_code failed = 0
act_code listed = 1
act_code queried = 2
act_code attached = 3
act_code recovered = 4
act_code idle = 5
act_code executing = 6
act_code stopped = 7
act_code synced = 8
act_code promoted = 9
act_code unpromoted = 10
act_code committed = 11
act_code aborted = 12
act_code session_found = 13
act_code session_missing = 14
act_code released = 15
act_code recorded = 16
act_code noted = 17
act_code marked = 18
act_code acknowledged = 19

pub record Fact : Type 0 where
  pub act : Act
  pub run_id : ℕ

abbrev pub same_fact : Fact → Fact → Bool
same_fact a b = act_code a.act == act_code b.act && a.run_id == b.run_id

abbrev pub fact : Act → ℕ → Fact
fact act id = record { act = act; run_id = id }

-- The database, and what happened, the last fact first.
pub record Site : Type 0 where
  pub database : Database
  pub history : List Fact

pub data Reply {ℓ} (A : Type ℓ) : Type ℓ where
  good : A → Reply A
  bad : List Trouble → Reply A

-- An action answers, and leaves the site changed also when it fails.
abbrev pub Action {ℓ} : Type ℓ → Type ℓ
Action A = Site → Reply A × Site

-- LeaseInfo
pub record LeaseInfo : Type 0 where
  pub run_id : ℕ
  pub ref : String

-- agentexec.Execution; a lifecycle that is none of the three is `none`
pub record ExecutionInfo : Type 0 where
  pub run_id : ℕ
  pub lifecycle : Option Stage

-- What is outside: the answers of the provider and of the Runtime of a lease, what others do to the
-- database before the next transaction, its time, and what its connection does.
pub record Environment : Type 0 where
  pub list_leases : List Fact → Reply (List LeaseInfo)
  pub recover : ℕ → String → List Fact → Reply (Unit {0})
  pub list_executions : ℕ → List Fact → Reply (List ExecutionInfo)
  pub cancel : ℕ → List Fact → Reply (Unit {0})
  pub sync_back : ℕ → List Fact → Reply (Unit {0})
  pub commit : ℕ → List Fact → Reply (Unit {0})
  pub abort : ℕ → List Fact → Reply (Unit {0})
  pub session_exists : String → List Fact → Reply Bool
  pub release : ℕ → List Fact → Reply (Unit {0})
  pub others : List Fact → Database → Database
  pub clock : List Fact → ℕ
  pub connection : List Fact → Connection

abbrev pub pure {ℓ} : {A : Type ℓ} → A → Action A
pure a site = (good a, site)

abbrev pub fail {ℓ} : {A : Type ℓ} → List Trouble → Action A
fail errors site = (bad errors, site)

infixl 5 ◌>>=◌ ◌>>◌
abbrev pub next {ℓ κ} : {A : Type ℓ} {B : Type κ} → (A → Action B) → Reply A × Site → Reply B × Site
next k (good a, site) = k a site
next k (bad errors, site) = (bad errors, site)

unfoldable pub ◌>>=◌ {ℓ κ} : {A : Type ℓ} {B : Type κ} → Action A → (A → Action B) → Action B
(m >>= k) site = next k (m site)

abbrev pub ◌>>◌ {ℓ κ} : {A : Type ℓ} {B : Type κ} → Action A → Action B → Action B
m >> n = m >>= λ _. n

abbrev pub stop_if : Bool → Trouble → Action (Unit {0})
stop_if true t = fail (t ∷ [])
stop_if false t = pure tt

-- the action's error as a value
abbrev pub answered {ℓ} : {A : Type ℓ} → Reply A × Site → Reply (Reply A) × Site
answered (reply, site) = (good reply, site)

unfoldable pub attempt {ℓ} : {A : Type ℓ} → Action A → Action (Reply A)
attempt m site = answered (m site)

abbrev pub errors_of {ℓ} : {A : Type ℓ} → Reply A → List Trouble
errors_of (good _) = []
errors_of (bad errors) = errors

abbrev pub note : Act → ℕ → Site → Site
note act id site = record site { history = fact act id ∷ site.history }

abbrev pub settled {ℓ} : {A : Type ℓ} → (A → Act) → ℕ → Site → Reply A → Reply A × Site
settled act id site (good a) = (good a, note (act a) id site)
settled act id site (bad errors) = (bad errors, note failed id site)

-- a call of the provider or of a Runtime
unfoldable pub call {ℓ} : {A : Type ℓ} → (List Fact → Reply A) → (A → Act) → ℕ → Action A
call reply act id site = settled act id site (reply site.history)

abbrev pub finished {ℓ} :
    {A : Type ℓ} → Connection → (A → Act) → ℕ → Site → A × Database → Reply A × Site
finished healthy act id site (a, db) = (good a, note (act a) id (record site { database = db }))
finished acknowledgement_lost act id site (a, db) =
    (bad (other ∷ []), note (act a) id (record site { database = db }))
finished _ act id site _ = (bad (other ∷ []), note failed id site)

-- Errors of the store are none of those that the reconciler tells apart.
abbrev pub stored {ℓ} :
    {A : Type ℓ} → Connection → (A → Act) → ℕ → Site → Result (A × Database) → Reply A × Site
stored connection act id site (ok done') = finished connection act id site done'
stored connection act id site (err e) = (bad (other ∷ []), note failed id site)

-- a transaction of the store, after what others did
unfoldable pub transact {ℓ} :
    {A : Type ℓ} → Environment → (ℕ → Database → Result (A × Database)) → (A → Act) → ℕ → Action A
transact env tx act id site =
    let site' = record site { database = env.others site.history site.database } in
    stored (env.connection site.history) act id site' (tx (env.clock site.history) site'.database)
