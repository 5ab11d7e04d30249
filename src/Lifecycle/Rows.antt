-- ===== src/Lifecycle/Rows.antt =====
-- Rules for `RowStep`: one for each statement that a transaction is built of.
use mathlib.Core.Option
use mathlib.Core.Path.{subst}
use harness_forge.Base.{
  ℕ, ◌≡◌, inl, inr, refl, sym, ◌∙◌, some, arith, ◌==◌, ==_iff, ==-refl, Option-cases, if◌then◌else◌,
}
use harness_forge.Base.Tables.{find-update}
use harness_forge.Base.Keys.{Keyed-update}
use harness_forge.Events.Sequence.{IsSequenced}
use harness_forge.Schema.{Run, Event, Database, ok, Result-chain, find_run, update_run}
use harness_forge.Events.{count_event, append_event_tx}
use harness_forge.Events.Sequence.Append.{
  append_cases, with_event, find-with_event, with_event-IsSequenced,
}
use harness_forge.RunChanges.{log_event}
use harness_forge.Lifecycle.{
  Stays, Move, stays, advances, fails, succeeds, ends, withdraws, RowStep,
}

-- the row of `i` after UPDATE runs SET ... WHERE id=$1
pub find-update_run :
    (id i : ℕ) (f : Run → Run) (db : Database)
    → ((r : Run) → (f r).id ≡ r.id)
    → find_run i (update_run id f db)
      ≡ (if id == i then Option.map f (find_run i db) else find_run i db)
find-update_run id i f db keeps = find-update (λ (r : Run). r.id) id i f db.runs keeps

update_run_row :
    (id : ℕ) (f : Run → Run) (db : Database)
    → ((r : Run) → (f r).id ≡ r.id)
    → (r r' : Run) → find_run id db ≡ some r
    → find_run id (update_run id f db) ≡ some r'
    → r' ≡ f r
update_run_row id f db keeps r r' known e =
    ground (arith, find-update_run id id f db keeps, ==-refl id)

IsSequenced-update :
    (id : ℕ) (f : Run → Run) (db : Database)
    → ((r : Run) → (f r).id ≡ r.id)
    → ((r : Run) → (f r).next_event_sequence ≡ r.next_event_sequence)
    → IsSequenced db
    → IsSequenced (update_run id f db)
IsSequenced-update id f db keeps counts s = record {
  ascends = λ i r' e. elim (Option-cases (find_run i db)) [
    | inl missing ↦ absurd (ground (arith, find-update_run id i f db keeps))
    | inr (r, known) ↦
        let next : r'.next_event_sequence ≡ r.next_event_sequence =
          ground (arith, find-update_run id i f db keeps, counts r) in
        rw next (s.ascends i r known)
  ];
  owned = λ i e. s.owned i (ground (arith, find-update_run id i f db keeps));
}

pub RowStep-update :
    (P : Run → Run → Type 0) (id : ℕ) (f : Run → Run) (db : Database)
    → ((r : Run) → (f r).id ≡ r.id)
    → ((r : Run) → (f r).next_event_sequence ≡ r.next_event_sequence)
    → ((r : Run) → find_run id db ≡ some r → P r (f r))
    → RowStep P id db (update_run id f db)
RowStep-update P id f db keeps counts step = record {
  elsewhere = λ i ne. ground (arith, find-update_run id i f db keeps, ==_iff id i);
  here = λ r' e. elim (Option-cases (find_run id db)) [
    | inl missing ↦ absurd (ground (arith, find-update_run id id f db keeps))
    | inr (r, known) ↦ (r, known, rw (update_run_row id f db keeps r r' known e) (step r known))
  ];
  remains = λ h. ground (arith, find-update_run id id f db keeps);
  keyed = Keyed-update (λ (r : Run). r.id) id f db.runs keeps;
  sequenced = IsSequenced-update id f db keeps counts;
}

-- the same, where the row is known
pub RowStep-update_known :
    (P : Run → Run → Type 0) (id : ℕ) (f : Run → Run) (db : Database) (r : Run)
    → ((x : Run) → (f x).id ≡ x.id)
    → ((x : Run) → (f x).next_event_sequence ≡ x.next_event_sequence)
    → find_run id db ≡ some r
    → P r (f r)
    → RowStep P id db (update_run id f db)
RowStep-update_known P id f db r keeps counts known step =
    RowStep-update P id f db keeps counts
      (λ x e. let same : r ≡ x = ground arith in subst (λ (y : Run). P y (f y)) same step)

pub Stays-refl : (r : Run) → Stays r r
Stays-refl r = record { status = refl; phase = refl; finalized_at = refl }

Stays-trans : (a b c : Run) → Stays a b → Stays b c → Stays a c
Stays-trans a b c p q = record {
  status = q.status ∙ p.status;
  phase = q.phase ∙ p.phase;
  finalized_at = q.finalized_at ∙ p.finalized_at;
}

Move-Stays : (a b c : Run) → Move a b → Stays b c → Move a c
Move-Stays a b c (stays s) q = stays (Stays-trans a b c s q)
Move-Stays a b c (advances x y z w) q =
    advances x (q.status ∙ y) (ground arith) (q.finalized_at ∙ w)
Move-Stays a b c (fails x y z u v w) q =
    fails x (ground arith) (λ h. z (sym q.status ∙ h)) (λ h. u (sym q.status ∙ h)) (q.phase ∙ v)
      (q.finalized_at ∙ w)
Move-Stays a b c (succeeds x y z u v w) q =
    succeeds x y z (q.status ∙ u) (q.phase ∙ v) (q.finalized_at ∙ w)
Move-Stays a b c (ends x y z u v) q = ends x y (q.status ∙ z) (q.phase ∙ u) (ground arith)
Move-Stays a b c (withdraws x y z u) q = withdraws x (q.status ∙ y) (q.phase ∙ z) (ground arith)

-- a further statement that leaves the state machine alone
pub RowStep-then :
    (id : ℕ) (a b c : Database) → RowStep Move id a b → RowStep Stays id b c → RowStep Move id a c
RowStep-then id a b c p q = record {
  elsewhere = λ i ne. q.elsewhere i ne ∙ p.elsewhere i ne;
  here = λ r'' e.
      let (r', e', s) = q.here r'' e in
      let (r, e₀, m) = p.here r' e' in (r, e₀, Move-Stays r r' r'' m s);
  remains = λ h. q.remains (p.remains h);
  keyed = λ k. q.keyed (p.keyed k);
  sequenced = λ k. q.sequenced (p.sequenced k);
}

pub RowStep-Stays-then :
    (id : ℕ) (a b c : Database) → RowStep Stays id a b → RowStep Stays id b c → RowStep Stays id a c
RowStep-Stays-then id a b c p q = record {
  elsewhere = λ i ne. q.elsewhere i ne ∙ p.elsewhere i ne;
  here = λ r'' e.
      let (r', e', s) = q.here r'' e in
      let (r, e₀, m) = p.here r' e' in (r, e₀, Stays-trans r r' r'' m s);
  remains = λ h. q.remains (p.remains h);
  keyed = λ k. q.keyed (p.keyed k);
  sequenced = λ k. q.sequenced (p.sequenced k);
}

pub RowStep-refl : (id : ℕ) (db : Database) → RowStep Stays id db db
RowStep-refl id db = record {
  elsewhere = λ i ne. refl;
  here = λ r e. (r, e, Stays-refl r);
  remains = λ h. h;
  keyed = λ k. k;
  sequenced = λ k. k;
}

pub RowStep-Stays_change : (id : ℕ) (a b : Database) → RowStep Stays id a b → RowStep Move id a b
RowStep-Stays_change id a b p = record {
  elsewhere = p.elsewhere;
  here = λ r' e. let (r, e₀, s) = p.here r' e in (r, e₀, stays s);
  remains = p.remains;
  keyed = p.keyed;
  sequenced = p.sequenced;
}

IsSequenced-same :
    (a b : Database) → b.runs ≡ a.runs → b.run_events ≡ a.run_events → IsSequenced a → IsSequenced b
IsSequenced-same a b same logs s = record {
  ascends = λ i r e. rw logs (s.ascends i r (rw same at e));
  owned = λ i e. rw logs (s.owned i (rw same at e));
}

-- a change of the other tables
pub RowStep-runs :
    (id : ℕ) (a b : Database) → b.runs ≡ a.runs → b.run_events ≡ a.run_events → RowStep Stays id a b
RowStep-runs id a b same logs = record {
  elsewhere = λ i ne. rw same;
  here = λ r e. (r, rw (same) at e, Stays-refl r);
  remains = λ h. rw same h;
  keyed = λ k. rw same k;
  sequenced = λ k. IsSequenced-same a b same logs k;
}

RowStep-with_event :
    (run : Run) (event : Event) (db : Database)
    → find_run event.run_id db ≡ some run
    → RowStep Stays event.run_id db (with_event run event db)
unfolding count_event
RowStep-with_event run event db owner = record {
  elsewhere = λ i ne. ground (arith, find-with_event i run event db owner, ==_iff event.run_id i);
  here = λ r e.
      let same : r ≡ count_event run =
        ground (arith, find-with_event event.run_id run event db owner, ==-refl event.run_id) in
      (run, owner, rw same (record { status = refl; phase = refl; finalized_at = refl }));
  remains =
      λ h. ground (arith, find-with_event event.run_id run event db owner, ==-refl event.run_id);
  keyed = Keyed-update (λ (r : Run). r.id) event.run_id count_event db.runs (λ x. refl);
  sequenced = with_event-IsSequenced run event db owner;
}

log_event_append :
    (event : Event) (db db' : Database)
    → log_event event db ≡ ok db'
    → (event' : Event) × (append_event_tx event db ≡ ok (event', db'))
log_event_append event db db' h =
    let ((event', d), p, q) =
      Result-chain (append_event_tx event db) (λ (x : Event × Database). ok x.1) h in
    (event', cc)

pub RowStep-log_event :
    (event : Event) (db db' : Database)
    → log_event event db ≡ ok db'
    → RowStep Stays event.run_id db db'
RowStep-log_event event db db' h =
    let (event', appended) = log_event_append event db db' h in
    elim (append_cases event db event' db' appended) [
      | inl old ↦ rw old.unchanged (RowStep-refl event.run_id db)
      | inr new ↦ rw new.database (RowStep-with_event new.run event db new.owner)
    ]

-- a change of the other tables first
pub RowStep-from :
    (id : ℕ) (a b c : Database)
    → b.runs ≡ a.runs
    → b.run_events ≡ a.run_events
    → RowStep Move id b c
    → RowStep Move id a c
RowStep-from id a b c same logs p = record {
  elsewhere = λ i ne. rw (← same) (p.elsewhere i ne);
  here = λ r' e. let (r, e₀, m) = p.here r' e in (r, rw (← same) e₀, m);
  remains = λ h. p.remains (rw same h);
  keyed = λ k. p.keyed (rw same k);
  sequenced = λ k. p.sequenced (IsSequenced-same a b same logs k);
}

Stays-Move : (a b c : Run) → Stays a b → Move b c → Move a c
Stays-Move a b c p (stays s) = stays (Stays-trans a b c p s)
Stays-Move a b c p (advances x y z w) =
    advances (sym p.status ∙ x) y (ground arith) (w ∙ p.finalized_at)
Stays-Move a b c p (fails x y z u v w) =
    fails (sym p.status ∙ x) y z (λ h q. u h (p.phase ∙ q)) (v ∙ p.phase) (w ∙ p.finalized_at)
Stays-Move a b c p (succeeds x y z u v w) =
    succeeds (sym p.status ∙ x) (sym p.phase ∙ y) (sym p.finalized_at ∙ z) u (v ∙ p.phase)
      (w ∙ p.finalized_at)
Stays-Move a b c p (ends x y z u v) =
    ends (ground arith) (sym p.finalized_at ∙ y) (z ∙ p.status) (u ∙ p.phase) v
Stays-Move a b c p (withdraws x y z u) = withdraws (sym p.status ∙ x) y (z ∙ p.phase) u

pub RowStep-after :
    (id : ℕ) (a b c : Database) → RowStep Stays id a b → RowStep Move id b c → RowStep Move id a c
RowStep-after id a b c p q = record {
  elsewhere = λ i ne. q.elsewhere i ne ∙ p.elsewhere i ne;
  here = λ r'' e.
      let (r', e', m) = q.here r'' e in
      let (r, e₀, s) = p.here r' e' in (r, e₀, Stays-Move r r' r'' s m);
  remains = λ h. q.remains (p.remains h);
  keyed = λ k. q.keyed (p.keyed k);
  sequenced = λ k. q.sequenced (p.sequenced k);
}
