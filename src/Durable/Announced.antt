-- ===== src/Durable/Announced.antt =====
-- `change` of services/control-plane/internal/runs/coordinator_store.go: lemmas on the database and the
-- broker after it.
use harness_forge.Base.{ℕ, ◌≡◌, ◌≢◌, ◌⊎◌, inl, inr, refl, true, arith}
use harness_forge.Base.Keys.{All}
use harness_forge.Schema.{Database, Result, ok, Result-cases}
use harness_forge.Broker.{Channel, notify}
use harness_forge.Broker.Wakeups.{channels_of, notify_wakes}
use harness_forge.Durable.{
  World, Connection, unreachable, commit_refused, acknowledgement_lost, healthy, change, commit,
  finish_tx,
}

-- A transaction that is in the database, and every subscriber of the run has a wakeup.
pub record Announced {ℓ} {A : Type ℓ} (id : ℕ) (tx : Database → Result (A × Database))
    (before after : World) : Type ℓ where
  pub answer : A
  pub computed : tx before.db ≡ ok (answer, after.db)
  pub woken : All (λ (c : Channel). c.pending ≡ true) (channels_of id after.broker)

written {ℓ} :
    {A : Type ℓ} (id : ℕ) (tx : Database → Result (A × Database)) (w : World) (a : A)
    (db' : Database)
    → tx w.db ≡ ok (a, db')
    → Announced id tx w (record { db = db'; broker = notify id w.broker })
written id tx w a db' done = record {
  answer = a;
  computed = done;
  woken = (notify_wakes id w.broker).0;
}

-- Whatever the connection does, a change either leaves the database as it was, and then it does not
-- answer with success, or it writes what the transaction computed and wakes every subscriber of the run.
pub change-Announced {ℓ} :
    {A : Type ℓ} (conn : Connection) (id : ℕ) (tx : Database → Result (A × Database)) (w : World)
    → (((change conn id tx w).1.db ≡ w.db) × ((a : A) → (change conn id tx w).0 ≢ ok a))
      ⊎ Announced id tx w (change conn id tx w).1
unfolding change finish_tx commit
change-Announced unreachable id tx w = inl (refl, λ a e'. cc)
change-Announced commit_refused id tx w = elim (Result-cases (tx w.db)) [
  | inl (e, failed) ↦ inl (rw failed refl, λ a e'. ground (arith, failed, e'))
  | inr ((a, db'), done) ↦ inl (rw done refl, λ a e'. ground (arith, done, e'))
]
change-Announced acknowledgement_lost id tx w = elim (Result-cases (tx w.db)) [
  | inl (e, failed) ↦ inl (rw failed refl, λ a e'. ground (arith, failed, e'))
  | inr ((a, db'), done) ↦ inr (rw done (written id tx w a db' done))
]
change-Announced healthy id tx w = elim (Result-cases (tx w.db)) [
  | inl (e, failed) ↦ inl (rw failed refl, λ a e'. ground (arith, failed, e'))
  | inr ((a, db'), done) ↦ inr (rw done (written id tx w a db' done))
]
