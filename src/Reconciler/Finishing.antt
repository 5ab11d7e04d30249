-- ===== src/Reconciler/Finishing.antt =====
-- finishLease and finalizeAbsent of services/control-plane/internal/runs/reconcile.go: lemmas on the
-- order of their acts.
use harness_forge.Base.{
  ℕ, ◌≡◌, refl, inl, inr, Bool, true, false, not, ◌||◌, Option, none, some, List, [], ◌∷◌,
  if◌then◌else◌, arith, Bool-cases, String,
}
use harness_forge.Schema.{Run, queued, running, succeeded, same_status}
use harness_forge.RunCommit.{Format}
use harness_forge.Reconciler.{
  inconsistent, other, Act, promoted, unpromoted, committed, aborted, idle, session_found,
  session_missing, released, recorded, acknowledged, Fact, fact, Reply, good, bad, Action,
  Environment, pure, fail, stop_if, errors_of,
}
use harness_forge.Reconciler.Cleanup.{
  cleanup_conflict, abandon, after_commit, commit_execution, find_session, is_promoted,
  read_promotion, acknowledge, finish_succeeded, finish_lease, finalize_absent,
}
use harness_forge.Reconciler.Steps.{
  Attempted, follows, allowed, legal, After, After-weaken, Safe, Safe-then, Safe-pure, Safe-fail,
  Safe-stop_if, Safe-attempt, Safe-call, Safe-transact, Safe-weaken,
}
use harness_forge.Reconciler.Aborting.{
  Kept, Kept-transact, Kept-if, Freed, Safe-abort_lease, Safe-release_lease,
}

abbrev promotion_act : Bool → Act
promotion_act b = if b then promoted else unpromoted

Safe-read_promotion :
    {present : ℕ → Bool} {cs : List Fact} (env : Environment) (id : ℕ)
    → Safe present
        (After present cs)
        (read_promotion env id)
        (λ b. After present (fact (promotion_act b) id ∷ cs))
Safe-read_promotion {present = present} {cs = cs} env id =
    Safe-weaken _ (Safe-transact env (is_promoted id) promotion_act id harmless) (λ _ h c. c.after)
  where
    harmless :
        (b : Bool) (h : List Fact)
        → After present cs h
        → allowed present (promotion_act b) id h ≡ true
    harmless true h a = refl
    harmless false h a = refl

-- the run whose session was not promoted is never acknowledged
Safe-abandon :
    {present : ℕ → Bool} {cs ds : List Fact} (env : Environment) (id : ℕ)
    → Safe present (After present cs) (abandon env id) (λ (_ : Unit {0}). After present ds)
unfolding abandon follows
Safe-abandon {present = present} {ds = ds} env id = record {
  ends = λ site p.
      (Safe-then {R = λ (_ : Unit {0}). After present ds}
          (Safe-attempt {cs = []} _ (Safe-abort_lease present env id false true))
          (λ reply. failing reply)).ends
        site (record { order = p.order; done = refl });
}
  where
    failing :
        (r : Reply (Unit {0}))
        → Safe present
            (Attempted present [] (λ (_ : Unit {0}). Freed present id) r)
            (fail (inconsistent ∷ errors_of r))
            (λ (_ : Unit {0}). After present ds)
    failing (good u) = record { ends = λ site p. (p.order, λ cs h. h) }
    failing (bad errors) = Safe-fail

-- the facts of a run whose products were promoted, the last one first
abbrev kept_facts : ℕ → List Fact
kept_facts id = fact session_found id ∷ fact committed id ∷ fact promoted id ∷ []

Safe-commit_execution :
    {present : ℕ → Bool} (env : Environment) (id : ℕ)
    → Safe present
        (After present (fact promoted id ∷ []))
        (commit_execution env id)
        (λ (_ : Unit {0}). After present (fact committed id ∷ fact promoted id ∷ []))
unfolding commit_execution
Safe-commit_execution {present = present} env id =
    Safe-then (Safe-attempt _ (Safe-call (env.commit id) _ id (λ _ h a. a.done)))
      (λ reply. after reply)
  where
    after :
        (r : Reply (Unit {0}))
        → Safe present
            (Attempted present
              (fact promoted id ∷ [])
              (λ (_ : Unit {0}). After present (fact committed id ∷ fact promoted id ∷ []))
              r)
            (after_commit r)
            (λ (_ : Unit {0}). After present (fact committed id ∷ fact promoted id ∷ []))
    after (good u) = Safe-pure tt
    after (bad errors) = Safe-fail

abbrev session_act : Bool → Act
session_act b = if b then session_found else session_missing

Safe-find_session :
    {present : ℕ → Bool} {cs : List Fact} (env : Environment) (id : ℕ) (session : Option String)
    → Safe present
        (After present cs)
        (find_session env id session)
        (λ b. After present (fact (session_act b) id ∷ cs))
unfolding find_session
Safe-find_session env id none = Safe-fail
Safe-find_session {present = present} {cs = cs} env id (some s) =
    Safe-call (env.session_exists s) session_act id harmless
  where
    harmless :
        (b : Bool) (h : List Fact)
        → After present cs h
        → allowed present (session_act b) id h ≡ true
    harmless true h a = refl
    harmless false h a = refl

Safe-acknowledge :
    {present : ℕ → Bool} {cs : List Fact} (env : Environment) (format : Format) (id : ℕ)
    → ((h : List Fact) → After present cs h → allowed present acknowledged id h ≡ true)
    → Safe present
        (After present cs)
        (acknowledge env format id)
        (λ (_ : Unit {0}). After present (fact acknowledged id ∷ cs))
Safe-acknowledge env format id may =
    Safe-weaken _ (Safe-transact env _ _ id (λ _ h a. may h a)) (λ _ h c. c.after)

-- without the session the run is not finished
Safe-session :
    {present : ℕ → Bool} {cs : List Fact} (id : ℕ) (there : Bool)
    → Safe present
        (After present (fact (session_act there) id ∷ cs))
        (stop_if (not there) other)
        (λ (_ : Unit {0}). After present (fact session_found id ∷ cs))
Safe-session id false = Safe-fail
Safe-session id true = Safe-pure tt

pub Safe-finish_succeeded :
    {present : ℕ → Bool} (env : Environment) (format : Format) (r : Run)
    → Safe present (After present []) (finish_succeeded env format r) (λ (_ : Unit {0}).
      After present (fact acknowledged r.id ∷ fact released r.id ∷ kept_facts r.id))
unfolding finish_succeeded
Safe-finish_succeeded {present = present} env format r =
    Safe-then (Safe-read_promotion env r.id) λ moved. Safe-then (promotion moved) λ _.
      Safe-then (Safe-commit_execution env r.id) λ _.
        Safe-then (Safe-find_session env r.id r.candidate_sdk_session_id) λ there.
          Safe-then (Safe-session r.id there) λ _.
            Safe-then (Safe-release_lease env r.id)
              λ _. Safe-acknowledge env format r.id (λ h a. ground (arith, a.done))
  where
    promotion :
        (moved : Bool)
        → Safe present
            (After present (fact (promotion_act moved) r.id ∷ []))
            (if moved then pure tt else abandon env r.id)
            (λ (_ : Unit {0}). After present (fact promoted r.id ∷ []))
    promotion true = Safe-pure tt
    promotion false = Safe-abandon env r.id

-- How a lease was finished: a run that succeeded was promoted, its execution committed, its session
-- seen and its lease released, in this order, and then it was acknowledged; any other run had its
-- execution aborted, or none, and its lease released.
pub record IsFinished (present : ℕ → Bool) (r : Run) (history : List Fact) : Type 0 where
  pub order : legal present history ≡ true
  pub finished :
      (if same_status r.status succeeded
        then follows (fact acknowledged r.id ∷ fact released r.id ∷ kept_facts r.id) history
        else (follows (fact acknowledged r.id ∷ fact released r.id ∷ fact aborted r.id ∷ []) history
            || follows (fact acknowledged r.id ∷ fact released r.id ∷ fact idle r.id ∷ []) history))
      ≡ true

Safe-acknowledge-Freed :
    {present : ℕ → Bool} (env : Environment) (format : Format) (r : Run)
    → same_status r.status succeeded ≡ false
    → Safe present
        (Freed present r.id)
        (acknowledge env format r.id)
        (λ (_ : Unit {0}). IsFinished present r)
Safe-acknowledge-Freed {present = present} env format r not_succeeded = record {
  ends = λ site p.
      elim (Bool-cases (follows (fact released r.id ∷ fact aborted r.id ∷ []) site.history)) [
        | inl by_abort ↦
            (Safe-weaken _
                (Safe-acknowledge {cs = fact released r.id ∷ fact aborted r.id ∷ []} env format r.id
                  (λ h a. ground (arith, a.done)))
                (λ _ h a. record {
                  order = a.order;
                  finished = rw (not_succeeded, a.done) refl;
                })).ends
              site (record { order = p.order; done = by_abort })
        | inr no_abort ↦
            (Safe-weaken _
                (Safe-acknowledge {cs = fact released r.id ∷ fact idle r.id ∷ []} env format r.id
                  (λ h a. ground (arith, a.done)))
                (λ _ h a. record {
                  order = a.order;
                  finished = rw not_succeeded (ground (arith, a.done));
                })).ends
              site (record { order = p.order; done = ground (arith, p.freed) })
      ];
}

pub Safe-if :
    {present : ℕ → Bool} {P : List Fact → Type 0} {Q : Unit {0} → List Fact → Type 0} (b : Bool)
    (m n : Action (Unit {0}))
    → (b ≡ true → Safe present P m Q)
    → (b ≡ false → Safe present P n Q)
    → Safe present P (if b then m else n) Q
Safe-if true m n first second = first refl
Safe-if false m n first second = second refl

pub Safe-finish_lease :
    {present : ℕ → Bool} (env : Environment) (format : Format) (r : Run)
    → Safe present
        (After present [])
        (finish_lease env format r)
        (λ (_ : Unit {0}). IsFinished present r)
unfolding finish_lease
Safe-finish_lease {present = present} env format r =
    Safe-then (Safe-stop_if (cleanup_conflict r.error) inconsistent) λ _.
      Safe-if (same_status r.status succeeded) _ _
        (λ does.
          Safe-weaken _ (Safe-finish_succeeded env format r)
            (λ _ h a. record { order = a.order; finished = rw does a.done }))
        (λ not_succeeded.
          Safe-if (same_status r.status queued) _ _ (λ _. Safe-fail)
            (λ _.
              Safe-then (Safe-abort_lease present env r.id (same_status r.status running) true)
                (λ _. Safe-acknowledge-Freed env format r not_succeeded)))

pub Kept-finalize_absent :
    {present : ℕ → Bool} (env : Environment) (format : Format) (r : Run)
    → present r.id ≡ false
    → Kept present [] (finalize_absent env format r)
unfolding finalize_absent
Kept-finalize_absent env format r absent =
    Safe-then
      (Kept-if (same_status r.status running) _ (Kept-transact env _ recorded r.id (λ _. refl)))
      λ _.
        Safe-weaken _ (Safe-acknowledge env format r.id (λ h a. ground (arith, absent)))
          (λ _ h a. After-weaken a)
