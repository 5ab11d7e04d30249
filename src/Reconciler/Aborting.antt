-- ===== src/Reconciler/Aborting.antt =====
-- abortLease of services/control-plane/internal/runs/reconcile.go: lemmas on the order of its acts.
use harness_forge.Base.{
  ℕ, ◌≡◌, refl, inl, inr, Bool, true, false, ◌&&◌, ◌||◌, Option, none, some, List, [], ◌∷◌, ◌==◌,
  if◌then◌else◌, arith, Bool-cases, ◌≢◌, Option-cases,
}
use harness_forge.Base.Tables.{exists}
use harness_forge.Schema.{Database, Result}
use harness_forge.Sandbox.{Stage}
use harness_forge.Reconciler.{
  no_record, runtime_conflict, is_trouble, other, Act, idle, stopped, synced, aborted, released,
  Fact, fact, noted, marked, recorded, transact, Reply, good, bad, Action, ExecutionInfo,
  Environment, pure, attempt, call,
}
use harness_forge.Reconciler.Cleanup.{
  after_abort, note_diagnostics, find_record, execution_record, executions_act, list_executions,
  reply_of, is_live, not_awaiting, unless_missing, stop_execution, keep_diagnostics,
  abort_execution, release_lease, abort_lease, abort_stage,
}
use harness_forge.Reconciler.Steps.{
  Attempted, follows, allowed, legal, After, After-weaken, Safe, Safe-then, Safe-pure, Safe-fail,
  Safe-stop_if, Safe-attempt, Safe-call, Safe-transact, Safe-weaken,
}

-- an action after which the facts still stand
abbrev pub Kept {ℓ} : {A : Type ℓ} → (ℕ → Bool) → List Fact → Action A → Type 0
Kept {A = A} present cs m = Safe present (After present cs) m (λ (_ : A). After present cs)

pub Kept-attempt :
    {present : ℕ → Bool} {cs : List Fact} (m : Action (Unit {0}))
    → Kept present cs m
    → Kept present cs (attempt m)
Kept-attempt {present = present} {cs = cs} m kept =
    Safe-weaken (attempt m) (Safe-attempt m kept) either
  where
    either :
        (r : Reply (Unit {0})) (h : List Fact)
        → Attempted present cs (λ (_ : Unit {0}). After present cs) r h
        → After present cs h
    either (good u) h a = a
    either (bad errors) h a = a

-- a call whose act is harmless, and leaves no trace that matters
pub Kept-call :
    {present : ℕ → Bool} {cs : List Fact} (reply : List Fact → Reply (Unit {0})) (act : Act)
    (id : ℕ)
    → ((history : List Fact) → allowed present act id history ≡ true)
    → Kept present cs (call reply (λ (_ : Unit {0}). act) id)
Kept-call reply act id harmless =
    Safe-weaken (call reply (λ (_ : Unit {0}). act) id) (Safe-call reply _ id (λ _ h _. harmless h))
      (λ _ h a. After-weaken a)

-- a transaction whose act is harmless
pub Kept-transact :
    {present : ℕ → Bool} {cs : List Fact} (env : Environment)
    (tx : ℕ → Database → Result (Unit {0} × Database)) (act : Act) (id : ℕ)
    → ((history : List Fact) → allowed present act id history ≡ true)
    → Kept present cs (transact env tx (λ (_ : Unit {0}). act) id)
Kept-transact env tx act id harmless =
    Safe-weaken _ (Safe-transact env tx _ id (λ _ h _. harmless h)) (λ _ h c. After-weaken c.after)

pub Kept-if :
    {present : ℕ → Bool} {cs : List Fact} (b : Bool) (m : Action (Unit {0}))
    → Kept present cs m
    → Kept present cs (if b then m else pure tt)
Kept-if true m kept = kept
Kept-if false m kept = Safe-pure tt

executions_harmless :
    (present : ℕ → Bool) (id : ℕ) (records : List ExecutionInfo) (history : List Fact)
    → allowed present (executions_act id records) id history ≡ true
unfolding exists
executions_harmless present id records history =
    elim (Bool-cases (exists (λ (e : ExecutionInfo). e.run_id == id) records)) [
      | inl e ↦ rw e refl
      | inr e ↦ rw e refl
    ]

Safe-list_executions :
    {present : ℕ → Bool} {cs : List Fact} (env : Environment) (id : ℕ)
    → Safe present
        (After present cs)
        (list_executions env id)
        (λ records. After present (fact (executions_act id records) id ∷ cs))
Safe-list_executions {present = present} env id =
    Safe-call (env.list_executions id) _ id
      (λ records h _. executions_harmless present id records h)

Safe-reply_of :
    {A : Type 0} {present : ℕ → Bool} {cs : List Fact} (r : Reply A)
    → Safe present
        (After present cs)
        (reply_of r)
        (λ (a : A) (h : List Fact). (r ≡ good a) × After present cs h)
Safe-reply_of (good a) = record { ends = λ site p. ((refl, p), λ cs h. h) }
Safe-reply_of (bad errors) = Safe-fail

-- a lifecycle that was seen is not lost
seen_stays :
    (id : ℕ) (stage : Stage) (records : List ExecutionInfo)
    → find_record id (some stage) records ≢ good none
unfolding find_record
seen_stays id stage [] h = absurd (cc)
seen_stays id stage (e ∷ rest) h = elim (Bool-cases (e.run_id == id)) [
  | inl same ↦ absurd (cc (rw same at h))
  | inr apart ↦ seen_stays id stage rest (rw apart at h)
]

no_record_idle :
    (id : ℕ) (records : List ExecutionInfo)
    → execution_record records id ≡ good none
    → executions_act id records ≡ idle
unfolding find_record exists
no_record_idle id [] h = refl
no_record_idle id (e ∷ rest) h = elim (Bool-cases (e.run_id == id)) [
  | inl same ↦ elim (Option-cases e.lifecycle) [
    | inl strange ↦ absurd (cc (rw (same, strange) at h))
    | inr (stage, known) ↦ absurd (seen_stays id stage rest (rw (same, known) at h))
  ]
  | inr apart ↦ rw apart (no_record_idle id rest (rw apart at h))
]

Kept-unless_missing :
    {present : ℕ → Bool} {cs : List Fact} (r : Reply (Unit {0}))
    → Kept present cs (unless_missing r)
Kept-unless_missing (good u) = Safe-pure tt
Kept-unless_missing (bad errors) = elim (Bool-cases (is_trouble no_record errors)) [
  | inl e ↦ rw e (Safe-pure tt)
  | inr e ↦ rw e Safe-fail
]

Kept-stop_execution :
    {present : ℕ → Bool} {cs : List Fact} (env : Environment) (id : ℕ)
    → Kept present cs (stop_execution env id)
unfolding stop_execution
Kept-stop_execution env id =
    Safe-then (Kept-attempt _ (Kept-call (env.cancel id) stopped id (λ _. refl))) λ reply.
      Safe-then (Kept-unless_missing reply) λ _.
        Safe-then (Safe-weaken _ (Safe-list_executions env id) (λ _ h a. After-weaken a)) λ records.
          Safe-then (Safe-weaken _ (Safe-reply_of (execution_record records id)) (λ _ h a. a.1))
            λ confirmed. Safe-stop_if (not_awaiting confirmed) other

Kept-note_diagnostics :
    {present : ℕ → Bool} {cs : List Fact} (env : Environment) (id : ℕ) (persist : Bool)
    (r : Reply (Unit {0}))
    → Kept present cs (note_diagnostics env id persist r)
Kept-note_diagnostics env id true (bad errors) =
    Safe-then (Kept-attempt _ (Kept-transact env _ noted id (λ _. refl))) λ _. Safe-pure tt
Kept-note_diagnostics env id true (good u) = Safe-pure tt
Kept-note_diagnostics env id false (good u) = Safe-pure tt
Kept-note_diagnostics env id false (bad errors) = Safe-pure tt

Kept-keep_diagnostics :
    {present : ℕ → Bool} {cs : List Fact} (env : Environment) (id : ℕ) (persist : Bool)
    → Kept present cs (keep_diagnostics env id persist)
unfolding keep_diagnostics
Kept-keep_diagnostics env id persist =
    Safe-then (Kept-attempt _ (Kept-call (env.sync_back id) synced id (λ _. refl)))
      (λ reply. Kept-note_diagnostics env id persist reply)

-- the facts about one run that allow its release
Safe-after_abort :
    {present : ℕ → Bool} {cs : List Fact} (env : Environment) (id : ℕ) (persist : Bool)
    (r : Reply (Unit {0}))
    → Safe present
        (Attempted present cs (λ (_ : Unit {0}). After present (fact aborted id ∷ cs)) r)
        (after_abort env id persist r)
        (λ _. After present (fact aborted id ∷ cs))
Safe-after_abort env id persist (good u) = Safe-pure tt
Safe-after_abort env id persist (bad errors) =
    elim (Bool-cases (is_trouble runtime_conflict errors && persist)) [
      | inl e ↦ rw e (
          Safe-then (Kept-attempt _ (Kept-transact env _ marked id (λ _. refl)))
            (λ mark. Safe-fail))
      | inr e ↦ rw e Safe-fail
    ]

Safe-abort_execution :
    {present : ℕ → Bool} {cs : List Fact} (env : Environment) (id : ℕ) (persist : Bool)
    → Safe present
        (After present cs)
        (abort_execution env id persist)
        (λ (_ : Unit {0}). After present (fact aborted id ∷ cs))
unfolding abort_execution
Safe-abort_execution env id persist =
    Safe-then (Safe-attempt _ (Safe-call (env.abort id) _ id (λ _ h _. refl)))
      (λ reply. Safe-after_abort env id persist reply)

-- the lease is released after an abort, or after no execution was found
pub record Freed (present : ℕ → Bool) (id : ℕ) (history : List Fact) : Type 0 where
  pub order : legal present history ≡ true
  pub freed :
      (follows (fact released id ∷ fact aborted id ∷ []) history
        || follows (fact released id ∷ fact idle id ∷ []) history)
      ≡ true

pub Safe-release_lease :
    {present : ℕ → Bool} {cs : List Fact} (env : Environment) (id : ℕ)
    → Safe present
        (After present cs)
        (release_lease env id)
        (λ (_ : Unit {0}). After present (fact released id ∷ cs))
Safe-release_lease env id = Safe-call (env.release id) _ id (λ _ h _. refl)

Freed-idle :
    (present : ℕ → Bool) (id : ℕ) (records : List ExecutionInfo) (history : List Fact)
    → executions_act id records ≡ idle
    → After present (fact released id ∷ fact (executions_act id records) id ∷ []) history
    → Freed present id history
Freed-idle present id records history e a = record {
  order = a.order;
  freed =
      let done' : follows (fact released id ∷ fact idle id ∷ []) history ≡ true = rw e at a.done in
      ground (arith, done');
}

Freed-aborted :
    (present : ℕ → Bool) (id : ℕ) (history : List Fact)
    → After present (fact released id ∷ fact aborted id ∷ []) history
    → Freed present id history
Freed-aborted present id history a = record { order = a.order; freed = ground (arith, a.done) }

-- the steps after the executions were listed
Safe-stage :
    (present : ℕ → Bool) (env : Environment) (id : ℕ) (is_running persist : Bool)
    (records : List ExecutionInfo) (stage : Option Stage)
    → execution_record records id ≡ good stage
    → Safe present
        (After present (fact (executions_act id records) id ∷ []))
        (abort_stage env id is_running persist stage)
        (λ (_ : Unit {0}). Freed present id)
unfolding abort_stage
Safe-stage present env id is_running persist records none made =
    Safe-then (Kept-if (is_running && persist) _ (Kept-transact env _ recorded id (λ _. refl))) λ _.
      Safe-then (Safe-pure tt) λ _. Safe-then (Kept-keep_diagnostics env id persist) λ _.
        Safe-then (Safe-pure tt) λ _.
          Safe-weaken _ (Safe-release_lease env id)
            (λ _ h a. Freed-idle present id records h (no_record_idle id records made) a)
Safe-stage present env id is_running persist records (some s) made = record {
  ends = λ site p.
      (Safe-then {P = After present []}
          (Kept-if (is_running && persist) _ (Kept-transact env _ recorded id (λ _. refl)))
          λ _. Safe-then (Kept-if (is_live (some s)) _ (Kept-stop_execution env id)) λ _.
            Safe-then (Kept-keep_diagnostics env id persist) λ _.
              Safe-then (Safe-abort_execution env id persist) λ _.
                Safe-weaken _ (Safe-release_lease env id)
                  (λ _ h a. Freed-aborted present id h a)).ends
        site (After-weaken p);
}

pub Safe-abort_lease :
    (present : ℕ → Bool) (env : Environment) (id : ℕ) (is_running persist : Bool)
    → Safe present
        (After present [])
        (abort_lease env id is_running persist)
        (λ (_ : Unit {0}). Freed present id)
unfolding abort_lease
Safe-abort_lease present env id is_running persist =
    Safe-then (Safe-list_executions env id) λ records.
      Safe-then (Safe-reply_of (execution_record records id)) λ stage. record {
        ends = λ site p.
            (Safe-stage present env id is_running persist records stage p.0).ends site p.1;
      }
