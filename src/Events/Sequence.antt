-- ===== src/Events/Sequence.antt =====
-- The sequence numbers of services/control-plane/internal/runs/events.go: their order as a predicate.
pub mod Append
use harness_forge.Base.{
  ℕ, suc, ◌≤◌, ◌<◌, ◌≡◌, refl, Bool, true, false, ◌&&◌, Option, none, some, List, [], ◌∷◌, ◌++◌,
  arith, ltb, leb, ◌==◌, if◌then◌else◌, Bool-cases, inl, inr,
}
use harness_forge.Base.Tables
use harness_forge.Base.Tables.{find, where_rows, order_by, insert_sorted}
use harness_forge.Schema.{Run, Event, Database}
use harness_forge.Events.{of_run, list_events}

-- The events of one run, oldest insertion first.
unfoldable pub events_of : ℕ → List Event → List Event
events_of id rows = where_rows (of_run id) rows

-- The numbers ascend from `lo` and stay below `hi`.
abbrev pub Ascending : ℕ → List Event → ℕ → Type 0
Ascending lo [] hi = lo ≤ hi
Ascending lo (e ∷ es) hi = (lo ≤ e.sequence) × Ascending (suc e.sequence) es hi

pub record IsSequenced (db : Database) : Type 0 where
  pub ascends :
      (id : ℕ) (run : Run)
      → find (λ (r : Run). r.id) id db.runs ≡ some run
      → Ascending 0 (events_of id db.run_events) run.next_event_sequence
  -- an event belongs to a run
  pub owned :
      (id : ℕ) → find (λ (r : Run). r.id) id db.runs ≡ none → events_of id db.run_events ≡ []

pub Ascending-le : (lo : ℕ) (es : List Event) (hi : ℕ) → Ascending lo es hi → lo ≤ hi
Ascending-le lo [] hi h = h
Ascending-le lo (e ∷ es) hi h = omega (arith, Ascending-le (suc e.sequence) es hi h.1)

pub Ascending-append :
    (lo : ℕ) (es : List Event) (e : Event)
    → Ascending lo es e.sequence
    → Ascending lo (es ++ e ∷ []) (suc e.sequence)
Ascending-append lo [] e h = omega arith
Ascending-append lo (x ∷ es) e h = (h.0, Ascending-append (suc x.sequence) es e h.1)

unfoldable pub after : ℕ → List Event → List Event
after n = where_rows (λ (e : Event). ltb n e.sequence)

pub after-append :
    (n : ℕ) (es more : List Event) → after n (es ++ more) ≡ after n es ++ after n more
unfolding after
after-append n es more = Tables.where_rows-append _ es more

pub after_keep :
    (n : ℕ) (e : Event) (es : List Event) → n < e.sequence → after n (e ∷ es) ≡ e ∷ after n es
unfolding after where_rows
after_keep n e es h = ground arith

pub after_drop :
    (n : ℕ) (e : Event) (es : List Event) → e.sequence ≤ n → after n (e ∷ es) ≡ after n es
unfolding after where_rows
after_drop n e es h = ground arith

pub after-nil : (n : ℕ) → after n [] ≡ []
unfolding after where_rows
after-nil n = refl

pub after_low :
    (n lo : ℕ) (es : List Event) (hi : ℕ) → Ascending lo es hi → n < lo → after n es ≡ es
unfolding after where_rows
after_low n lo [] hi h l = refl
after_low n lo (e ∷ es) hi h l = ground (arith, after_low n (suc e.sequence) es hi)

Ascending-weaken :
    (low lo : ℕ) (es : List Event) (hi : ℕ) → low ≤ lo → Ascending lo es hi → Ascending low es hi
Ascending-weaken low lo [] hi l h = omega arith
Ascending-weaken low lo (e ∷ es) hi l h = (omega arith, h.1)

pub Ascending-after :
    (n lo : ℕ) (es : List Event) (hi : ℕ) → Ascending lo es hi → Ascending lo (after n es) hi
unfolding after where_rows
Ascending-after n lo [] hi h = h
Ascending-after n lo (e ∷ es) hi h =
    let rest = Ascending-after n (suc e.sequence) es hi h.1 in
    elim (Bool-cases (ltb n e.sequence)) [
      | inl later ↦ rw later (h.0, rest)
      | inr earlier ↦
          rw earlier (Ascending-weaken lo (suc e.sequence) (after n es) hi (omega arith) rest)
    ]

insert-Ascending :
    (x : Event) (es : List Event) (hi : ℕ)
    → Ascending (suc x.sequence) es hi
    → insert_sorted (λ (a b : Event). leb a.sequence b.sequence) x es ≡ x ∷ es
unfolding insert_sorted
insert-Ascending x [] hi h = refl
insert-Ascending x (y ∷ es) hi h = ground arith

-- ascending events are in the order that ORDER BY sequence wants
order_by-Ascending :
    (lo : ℕ) (es : List Event) (hi : ℕ)
    → Ascending lo es hi
    → order_by (λ (a b : Event). leb a.sequence b.sequence) es ≡ es
unfolding order_by
order_by-Ascending lo [] hi h = refl
order_by-Ascending lo (x ∷ es) hi h =
    rw (order_by-Ascending (suc x.sequence) es hi h.1) (insert-Ascending x es hi h.1)

-- both tests at once, or one after the other
after-events_of :
    (id n : ℕ) (rows : List Event)
    → where_rows (λ (e : Event). of_run id e && ltb n e.sequence) rows ≡ after n (events_of id rows)
unfolding after events_of where_rows
after-events_of id n [] = refl
after-events_of id n (e ∷ rows) = ground (arith, after-events_of id n rows)

-- ListEvents gives the later events of the run, in the order of insertion.
pub list_events-after :
    (id n : ℕ) (db : Database) (hi : ℕ)
    → Ascending 0 (events_of id db.run_events) hi
    → list_events id n db ≡ after n (events_of id db.run_events)
unfolding list_events
list_events-after id n db hi h = rw (after-events_of id n db.run_events) (
    order_by-Ascending 0 (after n (events_of id db.run_events)) hi
      (Ascending-after n 0 (events_of id db.run_events) hi h))
