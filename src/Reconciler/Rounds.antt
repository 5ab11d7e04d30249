-- ===== src/Reconciler/Rounds.antt =====
-- services/control-plane/internal/runs/reconcile.go: Reconcile. Its timeout of 30 seconds is one of
-- the ways in which the calls fail.
use harness_forge.Base.{
  ℕ, String, Bool, true, false, not, ◌&&◌, ◌||◌, Option, none, some, List, [], ◌∷◌, ◌++◌, ◌==◌, ltb,
  leb, if◌then◌else◌, is_some, same_text, holds,
}
use harness_forge.Base.Tables.{exists, find, order_by}
use harness_forge.Schema.{queued, succeeded, same_status, Run, Database, Result, ok}
use harness_forge.State.{terminal}
use harness_forge.RunStore.{attach_sandbox_ref}
use harness_forge.RunCommit.{Format}
use harness_forge.Reconciler.{
  Trouble, inconsistent, no_sandbox, is_trouble, listed, queried, attached, recovered, Reply, good,
  bad, Action, LeaseInfo, Environment, pure, fail, ◌>>=◌, ◌>>◌, stop_if, attempt, errors_of, call,
  transact,
}
use harness_forge.Reconciler.Cleanup.{cleanup_conflict, finalize_absent, finish_lease, abort_lease}

abbrev pub has_lease : ℕ → List LeaseInfo → Bool
has_lease id leases = exists (λ (i : LeaseInfo). i.run_id == id) leases

-- every lease has a run and a reference, and no two have the same run
unfoldable pub listing_valid : List LeaseInfo → List LeaseInfo → Bool
listing_valid seen [] = true
listing_valid seen (i ∷ rest) =
    not (i.run_id == 0 || same_text i.ref "")
    && not (has_lease i.run_id seen)
    && listing_valid (i ∷ seen) rest

abbrev pub find_info : ℕ → List LeaseInfo → Option LeaseInfo
find_info id leases = find (λ (i : LeaseInfo). i.run_id) id leases

-- a run that this reconciliation leaves alone
abbrev pub is_passed : Bool → Run → Bool
is_passed terminal_only r =
    is_some r.finalized_at
    || same_status r.status queued
    || (terminal_only && not (terminal r.status))

abbrev pub attach : Environment → String → ℕ → LeaseInfo → Action Run
attach env provider id info =
    transact env (attach_sandbox_ref id provider info.ref) (λ (_ : Run). attached) id

-- a lease without a reference in its run's row gets one, when a provider is there
abbrev pub attach_listed : Environment → String → Run → Option LeaseInfo → Action Run
attach_listed env provider r none = pure r
attach_listed env provider r (some info) =
    if is_some r.sandbox_ref
    then pure r
    else (do stop_if (not (is_some r.sandbox_provider)) inconsistent; attach env provider r.id info)

abbrev pub recover_lease : Environment → ℕ → String → Action (Unit {0})
recover_lease env id ref = call (env.recover id ref) (λ (_ : Unit {0}). recovered) id

-- the errors of an action that the round goes on after
unfoldable pub collected : Action (Unit {0}) → Action (List Trouble)
collected m = do reply ← attempt m; pure (errors_of reply)

-- as `collected`, but for ErrConsistency
unfoldable pub collected_unless : Trouble → Action (Unit {0}) → Action (List Trouble)
collected_unless t m = do
  reply ← attempt m
  if is_trouble t (errors_of reply) then fail (errors_of reply) else pure (errors_of reply)

-- a run whose lease could not be recovered
abbrev pub after_lost : Environment → Format → Run → Bool → List Trouble → Action (List Trouble)
after_lost env format r present errors =
    if is_trouble no_sandbox errors && not present && not (same_status r.status succeeded)
    then collected (finalize_absent env format r)
    else pure errors

abbrev pub after_recover :
    Environment → Format → Run → Bool → Reply (Unit {0}) → Action (List Trouble)
after_recover env format r present (good _) =
    collected_unless inconsistent (finish_lease env format r)
after_recover env format r present (bad errors) = after_lost env format r present errors

abbrev pub other_ref : String → Option LeaseInfo → Bool
other_ref ref info = holds (λ (i : LeaseInfo). not (same_text i.ref ref)) info

-- a run with its reference, if it has one
abbrev pub repair_attached :
    Environment → Format → Option LeaseInfo → Run → Option String → Action (List Trouble)
repair_attached env format info r none = do
  stop_if (same_status r.status succeeded) inconsistent
  collected (finalize_absent env format r)
repair_attached env format info r (some ref) = do
  stop_if (other_ref ref info) inconsistent
  reply ← attempt (recover_lease env r.id ref)
  after_recover env format r (is_some info) reply

-- one run of the loop; the answer is what is joined to the result
unfoldable pub repair_run :
    Environment → Format → String → Bool → List LeaseInfo → Run → Action (List Trouble)
unfolding collected collected_unless
repair_run env format provider terminal_only leases r =
    if is_passed terminal_only r then pure [] else do
      stop_if (cleanup_conflict r.error) inconsistent
      r' ← attach_listed env provider r (find_info r.id leases)
      repair_attached env format (find_info r.id leases) r' r'.sandbox_ref

unfoldable pub repair_runs :
    Environment → Format → String → Bool → List LeaseInfo → List Run → Action (List Trouble)
unfolding repair_run
repair_runs env format provider terminal_only leases [] = pure []
repair_runs env format provider terminal_only leases (r ∷ rest) = do
  errors ← repair_run env format provider terminal_only leases r
  more ← repair_runs env format provider terminal_only leases rest
  pure (errors ++ more)

abbrev pub repair_orphan : Environment → LeaseInfo → Action (Unit {0})
repair_orphan env info = do
  recover_lease env info.run_id info.ref
  abort_lease env info.run_id false false

abbrev pub is_known : ℕ → List Run → Bool
is_known id rows = exists (λ (r : Run). r.id == id) rows

-- leases that belong to no run
unfoldable pub repair_orphans : Environment → List Run → List LeaseInfo → Action (List Trouble)
repair_orphans env rows [] = pure []
repair_orphans env rows (info ∷ rest) = do
  errors ← (if is_known info.run_id rows then pure [] else collected (repair_orphan env info))
  more ← repair_orphans env rows rest
  pure (errors ++ more)

abbrev pub is_foreign : String → Run → Bool
is_foreign provider r = holds (λ (p : String). not (same_text p provider)) r.sandbox_provider

abbrev earlier : Run → Run → Bool
earlier a b = ltb a.created_at b.created_at || (a.created_at == b.created_at && leb a.id b.id)

abbrev pub has_foreign : String → ℕ → Database → Result (Bool × Database)
has_foreign provider now db = ok (exists (is_foreign provider) db.runs, db)

abbrev pub all_rows : ℕ → Database → Result (List Run × Database)
all_rows now db = ok (order_by earlier db.runs, db)

abbrev pub conclude : List Trouble → Action (Unit {0})
conclude [] = pure tt
conclude (e ∷ errors) = fail (e ∷ errors)

-- the part of Reconcile after the listing
unfoldable pub repair_all :
    Environment → Format → String → Bool → List LeaseInfo → Action (Unit {0})
unfolding repair_runs repair_orphans
repair_all env format provider terminal_only leases = do
  stop_if (not (listing_valid [] leases)) inconsistent
  rows ← transact env all_rows (λ (_ : List Run). queried) 0
  errors ← repair_runs env format provider terminal_only leases rows
  more ← repair_orphans env rows leases
  conclude (errors ++ more)

-- Reconcile; `provider` is the identifier of the configured provider
unfoldable pub reconcile : Environment → Format → String → Bool → Action (Unit {0})
unfolding repair_all
reconcile env format provider terminal_only = do
  foreign ← transact env (has_foreign provider) (λ (_ : Bool). queried) 0
  stop_if foreign inconsistent
  leases ← call env.list_leases (λ (_ : List LeaseInfo). listed) 0
  repair_all env format provider terminal_only leases
