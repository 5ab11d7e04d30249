-- ===== src/Sandbox/Play.antt =====
-- services/control-plane/internal/sandbox/fake.go: the loop of Execute, which plays the events of a
-- scenario.
use harness_forge.Base.{
  ℕ, ◌+◌, String, Bool, not, ◌&&◌, ◌||◌, Option, none, some, List, [], ◌∷◌, if◌then◌else◌,
  same_text, holds,
}
use harness_forge.Base.Text.{concat}
use harness_forge.Contracts.{RuntimeEvent, Payload, agent_completed}
use harness_forge.Sandbox.{
  Execution, awaiting_finalize, Provider, Fault, unavailable, outcome_unknown, update_execution,
}

pub record Scenario : Type 0 where
  pub block_before : Option String
  pub events : List RuntimeEvent

-- When the context of the execution ends: before the event of an index, or while it is being sent;
-- and whether the outputs of the scenario can be copied.
pub record Conditions : Type 0 where
  pub ended_before : ℕ → Bool
  pub ended_sending : ℕ → Bool
  pub copied : Bool

abbrev completes : RuntimeEvent → Bool
completes e = same_text e.kind "agent.completed"

abbrev with_session : String → Payload → Payload
with_session session (agent_completed c artifacts) = agent_completed session artifacts
with_session session payload = payload

-- the event that is sent for an event of the fixture
unfoldable played : String → ℕ → RuntimeEvent → RuntimeEvent
played id_text now e = record e {
  run_id = id_text;
  occurred_at = now;
  payload =
      if completes e then with_session (concat "fake-session:" id_text) e.payload else e.payload;
}

-- What the goroutine of Execute has done when it ends.
pub record Playback : Type 0 where
  pub sent : List RuntimeEvent
  pub candidate : Option String
  pub failed : Option Fault

abbrev candidate_of : String → RuntimeEvent → Option String → Option String
candidate_of id_text e c = if completes e then some (concat "fake-session:" id_text) else c

-- the loop over the events of the scenario, from index i
unfoldable play :
    String → ℕ → Option String → Conditions → ℕ → Option String → List RuntimeEvent → Playback
unfolding played
play id_text now block env i c [] = record { sent = []; candidate = c; failed = none }
play id_text now block env i c (e ∷ rest) =
    let c' = candidate_of id_text e c in
    let more = play id_text now block env (i + 1) c' rest in
    if env.ended_before i || holds (same_text e.kind) block
    then record { sent = []; candidate = c; failed = some outcome_unknown }
    else if completes e && not env.copied
    then record { sent = []; candidate = c; failed = some unavailable }
    else if env.ended_sending i
    then record { sent = []; candidate = c'; failed = some outcome_unknown }
    else record more { sent = played id_text now e ∷ more.sent }

unfoldable settle : Option String → Execution → Execution
settle c e = record e { candidate = c; stage = awaiting_finalize }

-- Execute to its end: the loop, and then the execution awaits its finalization
unfoldable execute : ℕ → String → ℕ → Scenario → Conditions → Provider → Playback × Provider
unfolding play settle
execute id id_text now scenario env p =
    let played' = play id_text now scenario.block_before env 0 none scenario.events in
    (played', update_execution id (settle played'.candidate) p)
