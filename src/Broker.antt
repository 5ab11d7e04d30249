-- ===== src/Broker.antt =====
-- services/control-plane/internal/runs/broker.go: wakeups of the subscribers of a run.
pub mod Wakeups
use harness_forge.Base.{
  ℕ, ◌+◌, Bool, true, false, not, Option, none, some, List, [], ◌∷◌, ◌++◌, ◌==◌, if◌then◌else◌,
  is_some,
}
use harness_forge.Base.Tables.{find, update, where_rows}

-- A channel of capacity 1: `pending` says whether a wakeup waits in it.
pub record Channel : Type 0 where
  pub handle : ℕ
  pub pending : Bool

pub record Topic : Type 0 where
  pub run_id : ℕ
  pub channels : List Channel

-- `subscribers` is a map of maps; `next_handle` stands for the identity of a new channel.
pub record Broker : Type 0 where
  pub subscribers : List Topic
  pub next_handle : ℕ

abbrev pub topic : ℕ → List Topic → Option Topic
topic id topics = find (λ (t : Topic). t.run_id) id topics

abbrev pub new_broker : Broker
new_broker = record { subscribers = []; next_handle = 0 }

unfoldable add_channel : Channel → Topic → Topic
add_channel ch t = record t { channels = t.channels ++ ch ∷ [] }

-- Subscribe: the topic is made if it is not there, and the new channel has no wakeup
unfoldable pub subscribe : ℕ → Broker → ℕ × Broker
unfolding add_channel
subscribe id b =
    let ch : Channel = record { handle = b.next_handle; pending = false } in
    (
      b.next_handle,
      record {
        subscribers =
            if is_some (topic id b.subscribers)
            then update (λ (t : Topic). t.run_id) id (add_channel ch) b.subscribers
            else b.subscribers ++ record { run_id = id; channels = ch ∷ [] } ∷ [];
        next_handle = b.next_handle + 1;
      },
    )

unfoldable remove_channel : ℕ → Topic → Topic
remove_channel handle t = record t {
  channels = where_rows (λ (c : Channel). not (c.handle == handle)) t.channels;
}

abbrev is_empty {ℓ} : {A : Type ℓ} → List A → Bool
is_empty [] = true
is_empty (_ ∷ _) = false

abbrev pub kept : ℕ → Topic → Bool
kept id t = if t.run_id == id then not (is_empty t.channels) else true

-- the cleanup of a subscription: drop the channel, and the topic with its last channel
unfoldable unsubscribe : ℕ → ℕ → Broker → Broker
unfolding remove_channel
unsubscribe id handle b = record b {
  subscribers =
      where_rows (kept id)
        (update (λ (t : Topic). t.run_id) id (remove_channel handle) b.subscribers);
}

-- select { case ch <- struct{}{}: default: }
unfoldable pub wake : Channel → Channel
wake c = record c { pending = true }

unfoldable pub wake_all : List Channel → List Channel
unfolding wake
wake_all [] = []
wake_all (c ∷ rest) = wake c ∷ wake_all rest

unfoldable pub wake_topic : Topic → Topic
unfolding wake_all
wake_topic t = record t { channels = wake_all t.channels }

-- Notify
unfoldable pub notify : ℕ → Broker → Broker
unfolding wake_topic
notify id b = record b {
  subscribers = update (λ (t : Topic). t.run_id) id wake_topic b.subscribers;
}

-- a receive from a channel: it takes the wakeup
unfoldable drain : ℕ → Channel → Channel
drain handle c = if c.handle == handle then record c { pending = false } else c
