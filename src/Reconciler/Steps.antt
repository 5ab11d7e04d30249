-- ===== src/Reconciler/Steps.antt =====
-- Orders of acts for services/control-plane/internal/runs/reconcile.go as predicates on a history, and
-- rules to show them of an action.
use harness_forge.Base.{
  ℕ, ◌≡◌, refl, inl, inr, Bool, true, false, not, ◌&&◌, ◌||◌, List, [], ◌∷◌, arith, Bool-cases,
}
use harness_forge.Schema.{Database, Result, ok, err}
use harness_forge.Durable.{Connection, unreachable, commit_refused, acknowledgement_lost, healthy}
use harness_forge.Reconciler.{
  Trouble, Act, failed, idle, promoted, committed, aborted, session_found, released, acknowledged,
  Fact, fact, same_fact, Site, Reply, good, bad, Action, Environment, pure, fail, ◌>>=◌, stop_if,
  attempt, call, transact, next, answered, settled, stored,
}

-- the facts stand in the history in this order, the last one first
unfoldable pub follows : List Fact → List Fact → Bool
follows [] history = true
follows (c ∷ cs) [] = false
follows (c ∷ cs) (f ∷ history) = (same_fact c f && follows cs history) || follows (c ∷ cs) history

-- the lease was released after the decision that fits the run, or there was none to release
abbrev pub may_acknowledge : Bool → ℕ → List Fact → Bool
may_acknowledge present id history =
    not present
    || follows
        (fact released id ∷ fact session_found id ∷ fact committed id ∷ fact promoted id ∷ [])
        history
    || follows (fact released id ∷ fact aborted id ∷ []) history
    || follows (fact released id ∷ fact idle id ∷ []) history

-- `present` says which runs have a lease
abbrev pub allowed : (ℕ → Bool) → Act → ℕ → List Fact → Bool
allowed present committed id history = follows (fact promoted id ∷ []) history
allowed present acknowledged id history = may_acknowledge (present id) id history
allowed present _ id history = true

unfoldable pub legal : (ℕ → Bool) → List Fact → Bool
legal present [] = true
legal present (f ∷ history) = allowed present f.act f.run_id history && legal present history

pub follows_more :
    (cs : List Fact) (f : Fact) (history : List Fact)
    → follows cs history ≡ true
    → follows cs (f ∷ history) ≡ true
unfolding follows
follows_more [] f history h = refl
follows_more (c ∷ cs) f history h = ground arith

follows_rest :
    (c : Fact) (cs history : List Fact)
    → follows (c ∷ cs) history ≡ true
    → follows cs history ≡ true
unfolding follows
follows_rest c cs [] h = absurd (cc)
follows_rest c cs (f ∷ history) h = elim (Bool-cases (follows cs history)) [
  | inl e ↦ follows_more cs f history e
  | inr e ↦ follows_more cs f history (follows_rest c cs history (ground arith))
]

follows_again :
    (f : Fact) (cs history : List Fact)
    → follows cs history ≡ true
    → follows (f ∷ cs) (f ∷ history) ≡ true
unfolding follows
follows_again f cs history h = ground arith

-- the history keeps to the order, and the facts stand in it
pub record After (present : ℕ → Bool) (cs history : List Fact) : Type 0 where
  pub order : legal present history ≡ true
  pub done : follows cs history ≡ true

-- what stood in the first history stands in the second
abbrev pub Grown : List Fact → List Fact → Type 0
Grown before after = (cs : List Fact) → follows cs before ≡ true → follows cs after ≡ true

abbrev pub Ends {ℓ} :
    {A : Type ℓ} → (ℕ → Bool) → (A → List Fact → Type 0) → List Fact → Reply A × Site → Type 0
Ends present Q before (good a, site) = Q a site.history × Grown before site.history
Ends present Q before (bad errors, site) =
    (legal present site.history ≡ true) × Grown before site.history

-- From a history with P the action ends with Q of its answer, or fails in a history that keeps to the
-- order; in both cases what stood in the history still does.
pub record Safe {ℓ} {A : Type ℓ} (present : ℕ → Bool) (P : List Fact → Type 0) (m : Action A)
    (Q : A → List Fact → Type 0) : Type 0 where
  pub ends : (site : Site) → P site.history → Ends present Q site.history (m site)

pub Safe-then {ℓ κ} :
    {A : Type ℓ} {B : Type κ} {present : ℕ → Bool} {P : List Fact → Type 0}
    {Q : A → List Fact → Type 0} {R : B → List Fact → Type 0} {m : Action A} {k : A → Action B}
    → Safe present P m Q
    → ((a : A) → Safe present (Q a) (k a) R)
    → Safe present P (m >>= k) R
unfolding ◌>>=◌
Safe-then {A = A} {B = B} {present = present} {Q = Q} {R = R} {m = m} {k = k} first second =
    record { ends = λ site p. onward site.history (m site) (first.ends site p) }
  where
    grown :
        (before mid : List Fact) (end : Reply B × Site)
        → Grown before mid
        → Ends present R mid end
        → Ends present R before end
    grown before mid (good b, s) g e = (e.0, λ cs h. e.1 cs (g cs h))
    grown before mid (bad errors, s) g e = (e.0, λ cs h. e.1 cs (g cs h))

    onward :
        (before : List Fact) (end : Reply A × Site)
        → Ends present Q before end
        → Ends present R before (next k end)
    onward before (good a, s) e = grown before s.history (k a s) e.1 ((second a).ends s e.0)
    onward before (bad errors, s) e = e

pub After-weaken :
    {present : ℕ → Bool} {c : Fact} {cs history : List Fact}
    → After present (c ∷ cs) history
    → After present cs history
After-weaken {c = c} {cs = cs} {history = history} a = record {
  order = a.order;
  done = follows_rest c cs history a.done;
}

pub Safe-pure {ℓ} :
    {A : Type ℓ} {present : ℕ → Bool} {Q : A → List Fact → Type 0} (a : A)
    → Safe present (Q a) (pure a) Q
Safe-pure a = record { ends = λ site p. (p, λ cs h. h) }

pub Safe-fail {ℓ} :
    {A : Type ℓ} {present : ℕ → Bool} {cs : List Fact} {Q : A → List Fact → Type 0}
    {errors : List Trouble}
    → Safe present (After present cs) (fail errors) Q
Safe-fail = record { ends = λ site p. (p.order, λ cs h. h) }

pub Safe-stop_if :
    {present : ℕ → Bool} {cs : List Fact} (b : Bool) (t : Trouble)
    → Safe present (After present cs) (stop_if b t) (λ (_ : Unit {0}). After present cs)
Safe-stop_if true t = record { ends = λ site p. (p.order, λ cs h. h) }
Safe-stop_if false t = record { ends = λ site p. (p, λ cs h. h) }

-- a fact that may be next
pub after_fact :
    {present : ℕ → Bool} {cs : List Fact} (act : Act) (id : ℕ) (history : List Fact)
    → After present cs history
    → allowed present act id history ≡ true
    → After present (fact act id ∷ cs) (fact act id ∷ history)
unfolding legal
after_fact {cs = cs} act id history a may = record {
  order = rw (may, a.order) refl;
  done = follows_again (fact act id) cs history a.done;
}

one_more : (act : Act) (id : ℕ) (history : List Fact) → Grown history (fact act id ∷ history)
one_more act id history cs h = follows_more cs (fact act id) history h

failed_order :
    (present : ℕ → Bool) (id : ℕ) (history : List Fact)
    → legal present history ≡ true
    → legal present (fact failed id ∷ history) ≡ true
unfolding legal
failed_order present id history h = h

-- the answer of an attempt, with what holds after it
abbrev pub Attempted {ℓ} :
    {A : Type ℓ} → (ℕ → Bool) → List Fact → (A → List Fact → Type 0) → Reply A → List Fact → Type 0
Attempted present cs Q (good a) history = Q a history
Attempted present cs Q (bad errors) history = After present cs history

pub Safe-attempt {ℓ} :
    {A : Type ℓ} {present : ℕ → Bool} {cs : List Fact} {Q : A → List Fact → Type 0} (m : Action A)
    → Safe present (After present cs) m Q
    → Safe present (After present cs) (attempt m) (Attempted present cs Q)
unfolding attempt
Safe-attempt {A = A} {present = present} {cs = cs} {Q = Q} m safe = record {
  ends = λ site p. kept site p (m site) (safe.ends site p);
}
  where
    kept :
        (site : Site)
        → After present cs site.history
        → (end : Reply A × Site) → Ends present Q site.history end
        → Ends present (Attempted present cs Q) site.history (answered end)
    kept site p (good a, s) e = e
    kept site p (bad errors, s) e = (record { order = e.0; done = e.1 cs p.done }, e.1)

-- what holds after an act
abbrev pub Done {ℓ} : {A : Type ℓ} → (ℕ → Bool) → List Fact → (A → Act) → ℕ → A → List Fact → Type 0
Done present cs act id a = After present (fact (act a) id ∷ cs)

pub Safe-call {ℓ} :
    {A : Type ℓ} {present : ℕ → Bool} {cs : List Fact} (reply : List Fact → Reply A) (act : A → Act)
    (id : ℕ)
    → ((a : A) (history : List Fact)
        → After present cs history
        → allowed present (act a) id history ≡ true)
    → Safe present (After present cs) (call reply act id) (Done present cs act id)
unfolding call
Safe-call {A = A} {present = present} {cs = cs} reply act id may = record {
  ends = λ site p. kept site p (reply site.history);
}
  where
    kept :
        (site : Site)
        → After present cs site.history
        → (r : Reply A) → Ends present (Done present cs act id) site.history (settled act id site r)
    kept site p (good a) = (
      after_fact (act a) id site.history p (may a site.history p),
      one_more (act a) id site.history,
    )
    kept site p (bad errors) =
        (failed_order present id site.history p.order, one_more failed id site.history)

-- the answer of a transaction that was committed, and what holds after its act
pub record Committed {A : Type 0} (present : ℕ → Bool) (cs : List Fact) (act : A → Act) (id : ℕ)
    (tx : ℕ → Database → Result (A × Database)) (a : A) (history : List Fact) : Type 0 where
  pub answer : (now : ℕ) × (db : Database) × (db' : Database) × (tx now db ≡ ok (a, db'))
  pub after : After present (fact (act a) id ∷ cs) history

pub Safe-transact :
    {A : Type 0} {present : ℕ → Bool} {cs : List Fact} (env : Environment)
    (tx : ℕ → Database → Result (A × Database)) (act : A → Act) (id : ℕ)
    → ((a : A) (history : List Fact)
        → After present cs history
        → allowed present (act a) id history ≡ true)
    → Safe present (After present cs) (transact env tx act id) (Committed present cs act id tx)
unfolding transact
Safe-transact {A = A} {present = present} {cs = cs} env tx act id may = record {
  ends = λ site p.
      let db = env.others site.history site.database in
      let now = env.clock site.history in
      kept now db (record site { database = db }) p (env.connection site.history) (tx now db) refl;
}
  where
    kept :
        (now : ℕ) (db : Database) (site : Site)
        → After present cs site.history
        → (c : Connection) (r : Result (A × Database)) → tx now db ≡ r
        → Ends present (Committed present cs act id tx) site.history (stored c act id site r)
    kept now db site p c (err e) made =
        (failed_order present id site.history p.order, one_more failed id site.history)
    kept now db site p healthy (ok (a, db')) made = (
      record {
        answer = (now, db, db', made);
        after = after_fact (act a) id site.history p (may a site.history p);
      },
      one_more (act a) id site.history,
    )
    kept now db site p acknowledgement_lost (ok (a, db')) made = (
      (after_fact (act a) id site.history p (may a site.history p)).order,
      one_more (act a) id site.history,
    )
    kept now db site p unreachable (ok (a, db')) made =
        (failed_order present id site.history p.order, one_more failed id site.history)
    kept now db site p commit_refused (ok (a, db')) made =
        (failed_order present id site.history p.order, one_more failed id site.history)

-- what holds after an action follows from less
pub Safe-weaken {ℓ} :
    {A : Type ℓ} {present : ℕ → Bool} {P : List Fact → Type 0} {Q R : A → List Fact → Type 0}
    (m : Action A)
    → Safe present P m Q
    → ((a : A) (history : List Fact) → Q a history → R a history)
    → Safe present P m R
Safe-weaken {A = A} {present = present} {Q = Q} {R = R} m safe less = record {
  ends = λ site p. kept site.history (m site) (safe.ends site p);
}
  where
    kept :
        (before : List Fact) (end : Reply A × Site)
        → Ends present Q before end
        → Ends present R before end
    kept before (good a, s) e = (less a s.history e.0, e.1)
    kept before (bad errors, s) e = e
