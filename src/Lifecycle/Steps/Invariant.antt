-- ===== src/Lifecycle/Steps/Invariant.antt =====
-- The invariant of the runs as a predicate on databases, with lemmas on its parts.
use harness_forge.Base.{
  ℕ, ◌≡◌, ◌≢◌, ◌⊎◌, inl, inr, sym, ◌∙◌, true, none, some, arith, ◌==◌, ==_iff, Bool-cases, is_some,
}
use harness_forge.Base.Keys.{Keyed}
use harness_forge.Schema.{
  queued, running, succeeded, cancelled, publishing, Run, Database, find_run,
}
use harness_forge.State.{terminal}
use harness_forge.RunStore.{is_active}
use harness_forge.Events.Sequence.{IsSequenced}
use harness_forge.Lifecycle.{
  Move, Claims, stays, advances, fails, succeeds, ends, withdraws, RowStep,
}

-- What the columns of one run say together.
pub record IsSound (r : Run) : Type 0 where
  pub idle : r.status ≡ queued → (r.phase ≡ none) × (r.finalized_at ≡ none)
  pub open_run : r.status ≡ running → (is_some r.phase ≡ true) × (r.finalized_at ≡ none)
  pub over : is_some r.finalized_at ≡ true → terminal r.status ≡ true
  pub published : r.status ≡ succeeded → r.phase ≡ some publishing
  pub stopped : r.status ≡ cancelled → r.phase ≢ some publishing

Move-IsSound : (r r' : Run) → Move r r' → IsSound r → IsSound r'
Move-IsSound r r' (stays s) v = ground arith
Move-IsSound r r' (advances a b c d) v = ground arith
Move-IsSound r r' (fails a b c early e f) v = record {
  idle = λ q. ground arith;
  open_run = λ q. ground arith;
  over = λ q. b;
  published = λ q. absurd (c q);
  stopped = λ q p. early q (sym e ∙ p);
}
Move-IsSound r r' (succeeds a b c d e f) v = ground arith
Move-IsSound r r' (ends a b c d e) v = record {
  idle = λ q. ground arith;
  open_run = λ q. ground arith;
  over = λ q. ground arith;
  published = λ q. d ∙ v.published (sym c ∙ q);
  stopped = λ q p. v.stopped (sym c ∙ q) (sym d ∙ p);
}
Move-IsSound r r' (withdraws a b c d) v = ground arith

pub Claims-IsSound : (r r' : Run) → Claims r r' → IsSound r → IsSound r'
Claims-IsSound r r' c v = ground arith

-- a move never makes an idle or ended run active
Move-is_active : (r r' : Run) → Move r r' → is_active r' ≡ true → is_active r ≡ true
Move-is_active r r' (stays s) h = ground arith
Move-is_active r r' (advances a b c d) h = ground arith
Move-is_active r r' (fails a b c d e f) h = ground arith
Move-is_active r r' (succeeds a b c d e f) h = ground arith
Move-is_active r r' (ends a b c d e) h = ground arith
Move-is_active r r' (withdraws a b c d) h = ground arith

-- The invariant of the table of runs, with its events.
pub record IsWellFormed (db : Database) : Type 0 where
  pub keyed : Keyed (λ (r : Run). r.id) db.runs
  pub sequenced : IsSequenced db
  pub sound : (i : ℕ) (r : Run) → find_run i db ≡ some r → IsSound r
  -- one execution slot: two active runs are the same run
  pub single :
      (i j : ℕ) (a b : Run)
      → find_run i db ≡ some a
      → find_run j db ≡ some b
      → is_active a ≡ true
      → is_active b ≡ true
      → i ≡ j

-- the row that a step has come from, wherever it stands
pub came_from :
    (P : Run → Run → Type 0) (id : ℕ) (db db' : Database)
    → RowStep P id db db'
    → (i : ℕ) (r' : Run) → find_run i db' ≡ some r'
    → ((id ≡ i) × ((r : Run) × (find_run i db ≡ some r) × P r r'))
      ⊎ ((id ≢ i) × (find_run i db ≡ some r'))
came_from P id db db' s i r' e = elim (Bool-cases (id == i)) [
  | inl t ↦
      let same : id ≡ i = (==_iff id i).0 t in
      let (r, known, step) = s.here r' (rw same e) in inl (same, (r, rw (← same) known, step))
  | inr f ↦
      let ne : id ≢ i = λ p. ground (arith, ==_iff id i, p) in inr (ne, sym (s.elsewhere i ne) ∙ e)
]

module _ (id : ℕ) (db db' : Database) (s : RowStep Move id db db') (w : IsWellFormed db) where
  IsSound-after : (i : ℕ) (r' : Run) → find_run i db' ≡ some r' → IsSound r'
  IsSound-after i r' e = elim (came_from Move id db db' s i r' e) [
    | inl (same, (r, known, step)) ↦ Move-IsSound r r' step (w.sound i r known)
    | inr (ne, known) ↦ w.sound i r' known
  ]

  active_before :
      (i : ℕ) (r' : Run)
      → find_run i db' ≡ some r'
      → is_active r' ≡ true
      → (r : Run) × (find_run i db ≡ some r) × (is_active r ≡ true)
  active_before i r' e h = elim (came_from Move id db db' s i r' e) [
    | inl (same, (r, known, step)) ↦ (r, known, Move-is_active r r' step h)
    | inr (ne, known) ↦ (r', known, h)
  ]

  pub RowStep-IsWellFormed : IsWellFormed db'
  RowStep-IsWellFormed = record {
    keyed = s.keyed w.keyed;
    sequenced = s.sequenced w.sequenced;
    sound = IsSound-after;
    single = λ i j a b p q x y.
        let (a₀, p₀, x₀) = active_before i a p x in
        let (b₀, q₀, y₀) = active_before j b q y in w.single i j a₀ b₀ p₀ q₀ x₀ y₀;
  }
