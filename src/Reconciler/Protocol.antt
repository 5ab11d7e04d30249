-- ===== src/Reconciler/Protocol.antt =====
-- The loops of Reconcile in services/control-plane/internal/runs/reconcile.go: lemmas on the order of acts.
use harness_forge.Base.{
  ℕ, ◌≡◌, refl, inl, inr, Bool, true, false, not, ◌&&◌, ◌||◌, Option, none, some, List, [], ◌∷◌,
  ◌++◌, if◌then◌else◌, arith, Bool-cases, String, is_some,
}
use harness_forge.Base.Tables.{find-update, key-find}
use harness_forge.Base.Text.{is_blank}
use harness_forge.Schema.{
  Database, ok, conflict, Run, succeeded, same_status, find_run, update_run, found, refuse_if,
  Result-chain,
}
use harness_forge.RunStore.{attach_sandbox_ref, may_attach, set_ref}
use harness_forge.RunCommit.{Format}
use harness_forge.Reconciler.{
  Trouble, inconsistent, no_sandbox, is_trouble, attached, recovered, Fact, Reply, good, bad,
  Action, LeaseInfo, Environment, pure, errors_of,
}
use harness_forge.Reconciler.Cleanup.{cleanup_conflict, finish_lease}
use harness_forge.Reconciler.Rounds.{
  find_info, is_passed, attach_listed, recover_lease, collected, collected_unless, after_lost,
  after_recover, other_ref, repair_attached, repair_run, repair_runs, repair_orphan, repair_orphans,
  is_known, all_rows, conclude, listing_valid, repair_all,
}
use harness_forge.Reconciler.Steps.{
  Committed, follows, legal, After, After-weaken, Safe, Safe-then, Safe-pure, Safe-fail,
  Safe-stop_if, Safe-transact, Safe-weaken,
}
use harness_forge.Reconciler.Aborting.{Kept, Kept-attempt, Kept-call, Safe-abort_lease}
use harness_forge.Reconciler.Finishing.{Safe-finish_lease, Kept-finalize_absent}

found-some : {A : Type 0} (o : Option A) (a : A) → found o ≡ ok a → o ≡ some a
found-some none a h = absurd (cc)
found-some (some b) a h = ground (arith, h)

attach_row :
    (id : ℕ) (provider ref : String) (now : ℕ) (db db' : Database) (r : Run)
    → attach_sandbox_ref id provider ref now db ≡ ok (r, db')
    → (r.id ≡ id) × (is_some r.sandbox_ref ≡ true)
unfolding attach_sandbox_ref
attach_row id provider ref now db db' r h =
    let (_, _, h₁) = Result-chain (refuse_if (is_blank provider || is_blank ref) conflict) _ h in
    let (old, was, h₂) = Result-chain (found (find_run id db)) _ h₁ in
    let (_, _, h₃) = Result-chain (refuse_if (not (may_attach provider ref old)) conflict) _ h₂ in
    let (row, now', h₄) =
      Result-chain (found (find_run id (update_run id (set_ref ref now) db))) _ h₃ in
    let was' : find_run id db ≡ some old = found-some (find_run id db) old was in
    let is' = found-some (find_run id (update_run id (set_ref ref now) db)) row now' in
    let made : some row ≡ some (set_ref ref now old) = ground (
      arith,
      is',
      was',
      find-update (λ (x : Run). x.id) id id (set_ref ref now) db.runs (λ x. refl),
    ) in
    let after : r ≡ set_ref ref now old = ground (arith, made, h₄) in
    rw after (key-find (λ (x : Run). x.id) id db.runs old was', refl)

unfinished :
    {present : ℕ → Bool} (history : List Fact)
    → legal present history ≡ true
    → After present [] history
unfolding follows
unfinished history h = record { order = h; done = refl }

Kept-collected :
    {present : ℕ → Bool} (m : Action (Unit {0})) → Kept present [] m → Kept present [] (collected m)
unfolding collected
Kept-collected m kept = Safe-then (Kept-attempt m kept) (λ reply. Safe-pure (errors_of reply))

Kept-collected_unless :
    {present : ℕ → Bool} (t : Trouble) (m : Action (Unit {0}))
    → Kept present [] m
    → Kept present [] (collected_unless t m)
unfolding collected_unless
Kept-collected_unless t m kept = Safe-then (Kept-attempt m kept) λ reply.
    elim (Bool-cases (is_trouble t (errors_of reply))) [
      | inl e ↦ rw e Safe-fail
      | inr e ↦ rw e (Safe-pure (errors_of reply))
    ]

Kept-finish_lease :
    {present : ℕ → Bool} (env : Environment) (format : Format) (r : Run)
    → Kept present [] (finish_lease env format r)
Kept-finish_lease env format r =
    Safe-weaken _ (Safe-finish_lease env format r) (λ _ h a. unfinished h a.order)

Kept-after_lost :
    {present : ℕ → Bool} (env : Environment) (format : Format) (r : Run) (there : Bool)
    (errors : List Trouble)
    → (there ≡ false → present r.id ≡ false)
    → Kept present [] (after_lost env format r there errors)
Kept-after_lost env format r there errors absent =
    elim (Bool-cases
      (is_trouble no_sandbox errors && not there && not (same_status r.status succeeded))) [
        | inl e ↦
            rw e (Kept-collected _ (Kept-finalize_absent env format r (absent (ground arith))))
        | inr e ↦ rw e (Safe-pure errors)
      ]

Kept-after_recover :
    {present : ℕ → Bool} (env : Environment) (format : Format) (r : Run) (there : Bool)
    (reply : Reply (Unit {0}))
    → (there ≡ false → present r.id ≡ false)
    → Kept present [] (after_recover env format r there reply)
Kept-after_recover env format r there (good u) absent =
    Kept-collected_unless inconsistent _ (Kept-finish_lease env format r)
Kept-after_recover env format r there (bad errors) absent =
    Kept-after_lost env format r there errors absent

Kept-recover_lease :
    {present : ℕ → Bool} (env : Environment) (id : ℕ) (ref : String)
    → Kept present [] (recover_lease env id ref)
Kept-recover_lease env id ref = Kept-call (env.recover id ref) recovered id (λ _. refl)

Kept-repair_attached :
    {present : ℕ → Bool} (env : Environment) (format : Format) (info : Option LeaseInfo) (r : Run)
    (ref : Option String)
    → (is_some info ≡ false → present r.id ≡ false)
    → (ref ≡ none → present r.id ≡ false)
    → Kept present [] (repair_attached env format info r ref)
Kept-repair_attached env format info r none absent unattached =
    Safe-then (Safe-stop_if (same_status r.status succeeded) inconsistent)
      λ _. Kept-collected _ (Kept-finalize_absent env format r (unattached refl))
Kept-repair_attached env format info r (some ref) absent unattached =
    Safe-then (Safe-stop_if (other_ref ref info) inconsistent) λ _.
      Safe-then (Kept-attempt _ (Kept-recover_lease env r.id ref))
        λ reply. Kept-after_recover env format r (is_some info) reply absent

-- the row after a missing reference was attached
record IsAttached (present : ℕ → Bool) (r : Run) (info : Option LeaseInfo) (r' : Run)
    (history : List Fact) : Type 0 where
  same_run : r'.id ≡ r.id
  referred : is_some r'.sandbox_ref ≡ false → is_some info ≡ false
  after : After present [] history

Safe-attach_listed :
    {present : ℕ → Bool} (env : Environment) (provider : String) (r : Run) (info : Option LeaseInfo)
    → Safe present
        (After present [])
        (attach_listed env provider r info)
        (IsAttached present r info)
Safe-attach_listed env provider r none = record {
  ends = λ site p. (record { same_run = refl; referred = λ _. refl; after = p }, λ cs h. h);
}
Safe-attach_listed {present = present} env provider r (some info) =
    elim (Bool-cases (is_some r.sandbox_ref)) [
      | inl has ↦ rw has (record {
        ends = λ site p. (
          record { same_run = refl; referred = λ lacks. absurd (ground arith); after = p },
          λ cs h. h,
        );
      })
      | inr lacks ↦ rw lacks (
          Safe-then (Safe-stop_if (not (is_some r.sandbox_provider)) inconsistent) λ _.
            Safe-weaken _
              (Safe-transact env (attach_sandbox_ref r.id provider info.ref) _ r.id (λ _ h _. refl))
              attached_row)
    ]
  where
    attached_row :
        (r' : Run) (h : List Fact)
        → Committed present []
            (λ (_ : Run). attached)
            r.id
            (attach_sandbox_ref r.id provider info.ref)
            r'
            h
        → IsAttached present r (some info) r' h
    attached_row r' h c =
        let (now, db, db', made) = c.answer in
        let row = attach_row r.id provider info.ref now db db' r' made in
        record {
          same_run = row.0;
          referred = λ lacks. absurd (ground (arith, row.1));
          after = After-weaken c.after;
        }

-- a run has a lease when the provider lists one
abbrev pub is_listed : List LeaseInfo → ℕ → Bool
is_listed leases id = is_some (find_info id leases)

Kept-repair_run :
    (env : Environment) (format : Format) (provider : String) (terminal_only : Bool)
    (leases : List LeaseInfo) (r : Run)
    → Kept (is_listed leases) [] (repair_run env format provider terminal_only leases r)
unfolding repair_run
Kept-repair_run env format provider terminal_only leases r =
    elim (Bool-cases (is_passed terminal_only r)) [
      | inl passed ↦ rw passed (Safe-pure [])
      | inr remains ↦ rw remains (
          Safe-then (Safe-stop_if (cleanup_conflict r.error) inconsistent) λ _.
            Safe-then (Safe-attach_listed env provider r (find_info r.id leases)) λ r'. record {
              ends = λ site p.
                  (Kept-repair_attached env format (find_info r.id leases) r' r'.sandbox_ref
                      (λ absent. rw p.same_run absent)
                      (λ lacks. rw p.same_run (p.referred (rw lacks refl)))).ends
                    site p.after;
            })
    ]

Kept-repair_runs :
    (env : Environment) (format : Format) (provider : String) (terminal_only : Bool)
    (leases : List LeaseInfo) (rows : List Run)
    → Kept (is_listed leases) [] (repair_runs env format provider terminal_only leases rows)
unfolding repair_runs
Kept-repair_runs env format provider terminal_only leases [] = Safe-pure []
Kept-repair_runs env format provider terminal_only leases (r ∷ rest) =
    Safe-then (Kept-repair_run env format provider terminal_only leases r) λ errors.
      Safe-then (Kept-repair_runs env format provider terminal_only leases rest)
        λ more. Safe-pure (errors ++ more)

Kept-repair_orphan :
    {present : ℕ → Bool} (env : Environment) (info : LeaseInfo)
    → Kept present [] (repair_orphan env info)
Kept-repair_orphan {present = present} env info =
    Safe-then (Kept-recover_lease env info.run_id info.ref) λ _.
      Safe-weaken _ (Safe-abort_lease present env info.run_id false false)
        (λ _ h a. unfinished h a.order)

Kept-repair_orphans :
    {present : ℕ → Bool} (env : Environment) (rows : List Run) (leases : List LeaseInfo)
    → Kept present [] (repair_orphans env rows leases)
unfolding repair_orphans
Kept-repair_orphans env rows [] = Safe-pure []
Kept-repair_orphans {present = present} env rows (info ∷ rest) =
    Safe-then (orphan (is_known info.run_id rows))
      λ errors. Safe-then (Kept-repair_orphans env rows rest) λ more. Safe-pure (errors ++ more)
  where
    orphan :
        (b : Bool) → Kept present [] (if b then pure [] else collected (repair_orphan env info))
    orphan true = Safe-pure []
    orphan false = Kept-collected _ (Kept-repair_orphan env info)

Kept-conclude : {present : ℕ → Bool} (errors : List Trouble) → Kept present [] (conclude errors)
Kept-conclude [] = Safe-pure tt
Kept-conclude (e ∷ errors) = Safe-fail

pub Kept-repair_all :
    (env : Environment) (format : Format) (provider : String) (terminal_only : Bool)
    (leases : List LeaseInfo)
    → Kept (is_listed leases) [] (repair_all env format provider terminal_only leases)
unfolding repair_all
Kept-repair_all env format provider terminal_only leases =
    Safe-then (Safe-stop_if (not (listing_valid [] leases)) inconsistent) λ _.
      Safe-then
        (Safe-weaken _ (Safe-transact env all_rows _ 0 (λ _ h _. refl))
          (λ _ h c. After-weaken c.after))
        λ rows. Safe-then (Kept-repair_runs env format provider terminal_only leases rows) λ errors.
          Safe-then (Kept-repair_orphans env rows leases) λ more. Kept-conclude (errors ++ more)
