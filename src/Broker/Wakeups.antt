-- ===== src/Broker/Wakeups.antt =====
-- Notify of services/control-plane/internal/runs/broker.go: lemmas on the channels of a run.
use harness_forge.Base.{
  ℕ, ◌≡◌, ◌≢◌, inl, inr, refl, sym, subst, true, none, some, List, [], ◌∷◌, arith, ◌==◌, ==_iff,
  ==-refl, Option-cases, if◌then◌else◌,
}
use harness_forge.Base.Tables.{find-update}
use harness_forge.Base.Keys.{All}
use harness_forge.Broker.{Channel, Topic, Broker, topic, notify, wake, wake_all, wake_topic}

-- the channels that subscribe to a run
abbrev pub channels_of : ℕ → Broker → List Channel
channels_of id b = elim (topic id b.subscribers) [ none ↦ [] | some t ↦ t.channels ]

abbrev pub all_handles : List Channel → List ℕ
all_handles [] = []
all_handles (c ∷ rest) = c.handle ∷ all_handles rest

wake_all_lem :
    (cs : List Channel)
    → All (λ (c : Channel). c.pending ≡ true) (wake_all cs)
      × (all_handles (wake_all cs) ≡ all_handles cs)
unfolding wake_all wake
wake_all_lem [] = (tt, refl)
wake_all_lem (c ∷ cs) = let (a, b) = wake_all_lem cs in ((refl, a), ground (arith, b))

channels-notify :
    (id other : ℕ) (b : Broker)
    → channels_of other (notify id b)
      ≡ (if id == other then wake_all (channels_of other b) else channels_of other b)
unfolding notify wake_topic wake_all
channels-notify id other b = elim (Option-cases (topic other b.subscribers)) [
  | inl missing ↦ ground (
    arith,
    find-update (λ (t : Topic). t.run_id) id other wake_topic b.subscribers (λ t. refl),
    missing,
  )
  | inr (t, known) ↦ ground (
    arith,
    find-update (λ (t : Topic). t.run_id) id other wake_topic b.subscribers (λ t. refl),
    known,
  )
]

-- After Notify every channel of the run holds a wakeup, none is added or dropped, and the channels
-- of other runs are untouched.
pub notify_wakes :
    (id : ℕ) (b : Broker)
    → All (λ (c : Channel). c.pending ≡ true) (channels_of id (notify id b))
      × (all_handles (channels_of id (notify id b)) ≡ all_handles (channels_of id b))
      × ((other : ℕ) → id ≢ other → channels_of other (notify id b) ≡ channels_of other b)
notify_wakes id b =
    let own : channels_of id (notify id b) ≡ wake_all (channels_of id b) =
      ground (arith, channels-notify id id b, ==-refl id) in
    let (woken, same) = wake_all_lem (channels_of id b) in
    (
      subst (All (λ (c : Channel). c.pending ≡ true)) (sym own) woken,
      rw own same,
      λ other apart. ground (arith, channels-notify id other b, ==_iff id other),
    )
