-- ===== src/Lifecycle/Steps/Outcomes.antt =====
-- Lemmas on the outcomes of runs over the steps of the database, and on ClaimNext.
use harness_forge.Base.{
  ℕ, String, [], ◌∷◌, ◌++◌, ◌≡◌, inl, inr, refl, sym, ◌∙◌, Bool, true, false, Option, none, some,
  arith, ◌==◌, ==_iff, Option-cases, Bool-cases, is_some,
}
use mathlib.Core.Path.{subst}
use harness_forge.Base.Tables.{find-append, exists, where_rows}
use harness_forge.Base.Keys.{All, head?-order_by, All-where_rows_test}
use harness_forge.Schema.{running, preparing, Run, Database, ok, find_run, update_run}
use harness_forge.State.{terminal}
use harness_forge.RunStore.{
  is_active, is_candidate, older, claim, claim_next, new_run, create_queued_tx,
}
use harness_forge.Lifecycle.{
  Move, Claims, stays, advances, fails, succeeds, ends, withdraws, RowStep,
}
use harness_forge.Lifecycle.Moves.Intake.{claim_next_cases}
use harness_forge.Lifecycle.Steps.{Step, created, claimed, changed, Reach, here, next}
use harness_forge.Lifecycle.Steps.Invariant.{IsWellFormed, came_from}
use harness_forge.Lifecycle.Steps.Safety.{
  Change-RowStep, claim-RowStep, front_known, front_waits, Reach-IsWellFormed,
}

-- The outcome of `r` is that of `r'`, and its end, once recorded, too.
pub record SameOutcome (r r' : Run) : Type 0 where
  pub status : r'.status ≡ r.status
  pub phase : r'.phase ≡ r.phase
  pub finalized_at : is_some r.finalized_at ≡ true → r'.finalized_at ≡ r.finalized_at

Move-SameOutcome : (r r' : Run) → Move r r' → terminal r.status ≡ true → SameOutcome r r'
Move-SameOutcome r r' (stays s) h = ground arith
Move-SameOutcome r r' (advances a b c d) h = ground arith
Move-SameOutcome r r' (fails a b c d e f) h = ground arith
Move-SameOutcome r r' (succeeds a b c d e f) h = ground arith
Move-SameOutcome r r' (ends a b c d e) h = record {
  status = c;
  phase = d;
  finalized_at = λ q. ground arith;
}
Move-SameOutcome r r' (withdraws a b c d) h = ground arith

Claims-SameOutcome : (r r' : Run) → Claims r r' → terminal r.status ≡ true → SameOutcome r r'
Claims-SameOutcome r r' c h = ground arith

SameOutcome-refl : (r : Run) → SameOutcome r r
SameOutcome-refl r = record { status = refl; phase = refl; finalized_at = λ _. refl }

vanished :
    (P : Run → Run → Type 0) (id : ℕ) (db db' : Database)
    → RowStep P id db db'
    → (i : ℕ) (r : Run) → id ≡ i
    → find_run i db ≡ some r
    → find_run i db' ≡ none
    → ⊥
vanished P id db db' s i r same known lost =
    let there : is_some (find_run id db) ≡ true = ground arith in
    let still = s.remains there in ground arith

create-keeps :
    (id c t : ℕ) (source : Option String) (now : ℕ) (db db' : Database) (row : Run) (i : ℕ)
    (r : Run)
    → create_queued_tx id c t source now db ≡ ok (row, db')
    → find_run i db ≡ some r
    → find_run i db' ≡ some r
create-keeps id c t source now db db' row i r h known =
    let changed' : db' ≡ record db { runs = db.runs ++ new_run id c t source now ∷ [] } =
      unfold create_queued_tx in ground arith in
    rw changed'
      (find-append (λ (x : Run). x.id) i db.runs (new_run id c t source now ∷ []) ∙ rw known)

RowStep-SameOutcome :
    (P : Run → Run → Type 0) (id : ℕ) (db db' : Database)
    → ((r r' : Run) → P r r' → terminal r.status ≡ true → SameOutcome r r')
    → RowStep P id db db'
    → (i : ℕ) (r : Run) → find_run i db ≡ some r
    → terminal r.status ≡ true
    → (r' : Run) × (find_run i db' ≡ some r') × SameOutcome r r'
RowStep-SameOutcome P id db db' same s i r known over = elim (Option-cases (find_run i db')) [
  | inr (r', e) ↦ elim (came_from P id db db' s i r' e) [
    | inl (here', (r₀, known₀, step)) ↦
        let back : r₀ ≡ r = ground arith in (r', e, same r r' (subst (λ x. P x r') back step) over)
    | inr (ne, known') ↦
        let back : r' ≡ r = ground arith in
        (r', e, rw back (record { status = refl; phase = refl; finalized_at = λ _. refl }))
  ]
  | inl lost ↦ elim (Bool-cases (id == i)) [
    | inl t ↦ absurd (vanished P id db db' s i r ((==_iff id i).0 t) known lost)
    | inr f ↦ absurd (cc (sym lost ∙ s.elsewhere i (λ p. ground (arith, ==_iff id i, p)) ∙ known))
  ]
]

Step-SameOutcome :
    (db db' : Database)
    → Step db db'
    → IsWellFormed db
    → (i : ℕ) (r : Run) → find_run i db ≡ some r
    → terminal r.status ≡ true
    → (r' : Run) × (find_run i db' ≡ some r') × SameOutcome r r'
Step-SameOutcome db db' (created id c t source now row h) w i r known over =
    (r, create-keeps id c t source now db db' row i r h known, SameOutcome-refl r)
Step-SameOutcome db db' (claimed locked now row h) w i r known over =
    elim (claim_next_cases locked now db db' row h) [
      | inl (nothing, same) ↦ (r, rw same known, SameOutcome-refl r)
      | inr (q, idle, front, changed', _) ↦ rw changed' (
          RowStep-SameOutcome Claims q.id db (update_run q.id (claim now) db) Claims-SameOutcome
            (claim-RowStep locked db q front now w.keyed) i r known over)
    ]
Step-SameOutcome db db' (changed id c) w i r known over =
    RowStep-SameOutcome Move id db db' Move-SameOutcome (Change-RowStep db db' id c) i r known over

SameOutcome-trans : (a b c : Run) → SameOutcome a b → SameOutcome b c → SameOutcome a c
SameOutcome-trans a b c p q = record {
  status = q.status ∙ p.status;
  phase = q.phase ∙ p.phase;
  finalized_at = λ h. q.finalized_at (rw (p.finalized_at h) h) ∙ p.finalized_at h;
}

-- Once a run of a well-formed database has an outcome, it is there with the same status and phase
-- after any sequence of the transactions that create, claim or change runs (a hard delete is none
-- of them), and with the same end time if it had one.
pub Reach-SameOutcome :
    {db db' : Database} (i : ℕ) (r : Run)
    → Reach db db'
    → IsWellFormed db
    → find_run i db ≡ some r
    → terminal r.status ≡ true
    → (r' : Run) × (find_run i db' ≡ some r') × SameOutcome r r'
Reach-SameOutcome i r here w known over = (r, known, SameOutcome-refl r)
Reach-SameOutcome i r (next {mid} {db'} before s) w known over =
    let (r', e, same) = Reach-SameOutcome i r before w known over in
    let (r'', e', same') =
      Step-SameOutcome mid db' s (Reach-IsWellFormed before w) i r' e (rw same.status over) in
    (r'', e', SameOutcome-trans r r' r'' same same')

older_refl : (a : Run) → older a a ≡ true
older_refl a = ground arith

older_trans : (a b c : Run) → older a b ≡ true → older b c ≡ true → older a c ≡ true
older_trans a b c p q = ground arith

older_total : (a b : Run) → older a b ≡ false → older b a ≡ true
older_total a b h = ground arith

-- A claim happens only when no run is active, takes a queued run that nobody else holds, and none
-- of the runs that wait is older; the run that it returns is running and in preparation.
pub claim_next_first :
    (locked : ℕ → Bool) (now : ℕ) (db db' : Database) (r' : Run)
    → IsWellFormed db
    → claim_next locked now db ≡ ok (some r', db')
    → (exists is_active db.runs ≡ false)
      × ((r : Run) × (find_run r.id db ≡ some r)
          × (is_candidate locked r ≡ true)
          × All (λ (q : Run). is_candidate locked q ≡ true → older r q ≡ true) db.runs
          × (find_run r.id db' ≡ some r')
          × (r'.status ≡ running)
          × (r'.phase ≡ some preparing))
claim_next_first locked now db db' r' w h = elim (claim_next_cases locked now db db' (some r') h) [
  | inl (nothing, same) ↦ absurd (cc)
  | inr (r, idle, front, changed', answer) ↦
      let (r₀, e₀, step) =
        (claim-RowStep locked db r front now w.keyed).here r' (rw changed' at (sym answer)) in
      (
        idle,
        (
          r,
          front_known locked db r front w.keyed,
          front_waits locked db r front,
          All-where_rows_test (λ q. older r q ≡ true) (is_candidate locked) db.runs
              (head?-order_by older older_refl older_trans older_total
                (where_rows (is_candidate locked) db.runs) r front),
          sym answer,
          step.status,
          step.phase,
        ),
      )
]
