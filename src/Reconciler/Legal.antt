-- ===== src/Reconciler/Legal.antt =====
-- Reconcile and finishLease of services/control-plane/internal/runs/reconcile.go: the order of acts from
-- an empty history.
use harness_forge.Base.{ℕ, ◌≡◌, refl, sym, Bool, true, false, List, [], ◌∷◌, String}
use harness_forge.Base.Tables.{exists}
use harness_forge.Schema.{Database, Run}
use harness_forge.RunCommit.{Format}
use harness_forge.Durable.{Connection, unreachable, commit_refused, acknowledgement_lost, healthy}
use harness_forge.Reconciler.{
  inconsistent, failed, listed, queried, Fact, fact, Site, Reply, good, bad, LeaseInfo, Environment,
  call, transact, stop_if, finished, settled,
}
use harness_forge.Reconciler.Cleanup.{finish_lease}
use harness_forge.Reconciler.Rounds.{has_foreign, is_foreign, reconcile}
use harness_forge.Reconciler.Steps.{follows, legal, After, Ends, Safe, Safe-then, follows_more}
use harness_forge.Reconciler.Finishing.{IsFinished, Safe-finish_lease}
use harness_forge.Reconciler.Protocol.{is_listed, Kept-repair_all}

abbrev begun : List Fact
begun = fact queried 0 ∷ []

abbrev leases_of : Reply (List LeaseInfo) → List LeaseInfo
leases_of (good leases) = leases
leases_of (bad errors) = []

-- what the provider answers to List, right after the preflight
abbrev pub listing : Environment → List LeaseInfo
listing env = leases_of (env.list_leases begun)

-- nothing happened before, and then only the preflight
Safe-preflight :
    (present : ℕ → Bool) (env : Environment) (provider : String)
    → Safe present
        (λ h. h ≡ [])
        (transact env (has_foreign provider) (λ (_ : Bool). queried) 0)
        (λ (_ : Bool) h. h ≡ begun)
unfolding transact legal
Safe-preflight present env provider = record {
  ends = λ site p.
      let db = env.others site.history site.database in
      let site' = record site { database = db } in
      kept site' p (env.connection site.history) (exists (is_foreign provider) db.runs);
}
  where
    kept :
        (site : Site)
        → site.history ≡ []
        → (c : Connection) (b : Bool)
        → Ends present
            (λ (_ : Bool) h. h ≡ begun)
            site.history
            (finished c (λ (_ : Bool). queried) 0 site (b, site.database))
    kept site p healthy b = (rw p refl, λ cs. follows_more cs (fact queried 0) site.history)
    kept site p acknowledgement_lost b =
        (rw p refl, λ cs. follows_more cs (fact queried 0) site.history)
    kept site p unreachable b = (rw p refl, λ cs. follows_more cs (fact failed 0) site.history)
    kept site p commit_refused b = (rw p refl, λ cs. follows_more cs (fact failed 0) site.history)

Safe-owned :
    (present : ℕ → Bool) (foreign : Bool)
    → Safe present (λ h. h ≡ begun) (stop_if foreign inconsistent) (λ (_ : Unit {0}) h. h ≡ begun)
unfolding legal
Safe-owned present true = record { ends = λ site p. (rw p refl, λ cs h. h) }
Safe-owned present false = record { ends = λ site p. (p, λ cs h. h) }

Safe-listing :
    (present : ℕ → Bool) (env : Environment)
    → Safe present
        (λ h. h ≡ begun)
        (call env.list_leases (λ (_ : List LeaseInfo). listed) 0)
        (λ leases h. (leases ≡ listing env) × After present [] h)
unfolding call legal follows
Safe-listing present env = record {
  ends = λ site p. kept site p (env.list_leases site.history) (rw p refl);
}
  where
    kept :
        (site : Site)
        → site.history ≡ begun
        → (r : Reply (List LeaseInfo)) → r ≡ env.list_leases begun
        → Ends present
            (λ leases h. (leases ≡ listing env) × After present [] h)
            site.history
            (settled (λ (_ : List LeaseInfo). listed) 0 site r)
    kept site p (good leases) e = (
      (rw (sym e) refl, record { order = rw p refl; done = refl }),
      λ cs. follows_more cs (fact listed 0) site.history,
    )
    kept site p (bad errors) e = (rw p refl, λ cs. follows_more cs (fact failed 0) site.history)

Safe-reconcile :
    (env : Environment) (format : Format) (provider : String) (terminal_only : Bool)
    → Safe
        (is_listed (listing env))
        (λ h. h ≡ [])
        (reconcile env format provider terminal_only)
        (λ (_ : Unit {0}). After (is_listed (listing env)) [])
unfolding reconcile
Safe-reconcile env format provider terminal_only =
    Safe-then (Safe-preflight _ env provider) λ foreign. Safe-then (Safe-owned _ foreign) λ _.
      Safe-then (Safe-listing _ env) λ leases. record {
        ends = λ site p.
            rw p.0
              ((Kept-repair_all env format provider terminal_only (listing env)).ends site p.1);
      }

legal_end :
    {A : Type 0} (present : ℕ → Bool) (before : List Fact) (end : Reply A × Site)
    → Ends present (λ (_ : A). After present []) before end
    → legal present end.1.history ≡ true
legal_end present before (good a, s) e = e.0.order
legal_end present before (bad errors, s) e = e.0

-- Whatever the provider, the Runtimes, the connection and others do: in a reconciliation, whether it
-- succeeds or fails, an execution is committed only after the database said that the run's session is
-- the conversation's; and a run is acknowledged as finalized only when the provider listed no lease for
-- it, or its lease was released before, after its execution was aborted, or was not there, or was
-- committed, with the session seen.
pub reconcile-legal :
    (env : Environment) (format : Format) (provider : String) (terminal_only : Bool) (db : Database)
    → legal
        (is_listed (listing env))
        (reconcile env format provider terminal_only
          (record { database = db; history = [] })).1.history
      ≡ true
reconcile-legal env format provider terminal_only db =
    let start : Site = record { database = db; history = [] } in
    legal_end _ [] (reconcile env format provider terminal_only start)
      ((Safe-reconcile env format provider terminal_only).ends start refl)

-- When finishLease succeeds for a run, a run that succeeded was read as promoted, its execution
-- committed, its session seen and its lease released, in this order, and then it was acknowledged; any
-- other run had its execution aborted, or had none, then its lease was released, and then it was
-- acknowledged.
pub finish_lease-IsFinished :
    (present : ℕ → Bool) (env : Environment) (format : Format) (r : Run) (db : Database)
    (end : Site)
    → finish_lease env format r (record { database = db; history = [] }) ≡ (good tt, end)
    → IsFinished present r end.history
unfolding legal follows
finish_lease-IsFinished present env format r db end h =
    let start : Site = record { database = db; history = [] } in
    let e =
      (Safe-finish_lease {present = present} env format r).ends start
        (record { order = refl; done = refl }) in
    (rw h at e).0
