-- ===== src/Pump.antt =====
-- `pump` of services/control-plane/internal/runs/coordinator.go: the coordinator drains the events
-- and errors of an execution, and records the events.
pub mod Sound
use harness_forge.Base.{
  ℕ, String, Bool, true, false, not, ◌||◌, Option, none, some, List, [], ◌∷◌, leb, if◌then◌else◌,
  same_text, holds,
}
use harness_forge.Schema.{Database, Error, Result, ok, err}
use harness_forge.Contracts.{
  ArtifactCandidate, Payload, RuntimeEvent, artifact_candidate, agent_completed, agent_failed,
  unknown, candidate_after, completion_matches,
}
use harness_forge.RunChanges.{record_runtime_event}
use harness_forge.Durable.{World, Connection, change, silent}

-- What is joined to `failure`.
pub data PumpFault : Type 0 where
  invalid_event agent_failure missing_terminal other_commit reported : PumpFault
  unrecorded : Error → PumpFault

-- What a channel delivers, or what others do to the database between two deliveries. `unreadable` is
-- an event that does not come back from json.Marshal and ParseRuntimeEvent; `failed_with` tells
-- whether the error is a finalization of the run as a commit.
pub data Delivery : Type 0 where
  received : Connection → RuntimeEvent → ℕ → ℕ → Delivery
  unreadable : Delivery
  failed_with : Bool → Delivery
  meanwhile : (World → World) → Delivery

-- The variables of pump; `candidate` is none while candidateSeen is false. The failures stand
-- latest first.
pub record Pump : Type 0 where
  pub terminal_seen : Bool
  pub completed : Option (String × List ArtifactCandidate)
  pub candidate : Option (List ArtifactCandidate)
  pub previous : Option ℕ
  pub failures : List PumpFault
  pub world : World

abbrev pub join : PumpFault → Pump → Pump
join f s = record s { failures = f ∷ s.failures }

abbrev pub is_unknown : Payload → Bool
is_unknown (unknown _) = true
is_unknown _ = false

-- switch p := e.Payload.(type)
unfoldable pub note_payload : Payload → Pump → Pump
note_payload (artifact_candidate artifacts) s = record s { candidate = some artifacts }
note_payload (agent_completed session artifacts) s = record s {
  terminal_seen = true;
  completed = some (session, artifacts);
  failures =
      if completion_matches s.candidate (agent_completed session artifacts)
      then s.failures
      else invalid_event ∷ s.failures;
}
note_payload (agent_failed _ _ _) s = record s {
  terminal_seen = true;
  failures = agent_failure ∷ s.failures;
}
note_payload _ s = s

abbrev pub recorded : Result (Unit {0}) × World → Pump → Pump
recorded (ok _, w) s = record s { world = w }
recorded (err e, w) s = record s { world = w; failures = unrecorded e ∷ s.failures }

-- c.store.RecordRuntimeEvent
unfoldable pub store_event : ℕ → String → Connection → RuntimeEvent → ℕ → ℕ → Pump → Pump
store_event id own_id conn e fresh now s =
    recorded (change conn id (silent (record_runtime_event id own_id e fresh now)) s.world) s

-- an event that is read back; `own_id` is id.String()
unfoldable pub receive : ℕ → String → Connection → RuntimeEvent → ℕ → ℕ → Pump → Pump
unfolding note_payload store_event
receive id own_id conn e fresh now s =
    let s' = record s { previous = some e.sequence } in
    if not (same_text e.run_id own_id) || holds (leb e.sequence) s.previous
    then join invalid_event s
    else if is_unknown e.payload
    then s'
    else if s.terminal_seen
    then join invalid_event s'
    else store_event id own_id conn e fresh now (note_payload e.payload s')

abbrev pub fail_with : Bool → Pump → Pump
fail_with true s = join reported (join other_commit s)
fail_with false s = join reported s

unfoldable pub deliver : ℕ → String → Delivery → Pump → Pump
unfolding receive
deliver id own_id (received conn e fresh now) s = receive id own_id conn e fresh now s
deliver id own_id unreadable s = join invalid_event s
deliver id own_id (failed_with committed) s = fail_with committed s
deliver id own_id (meanwhile others) s = record s { world = others s.world }

unfoldable pub drain_all : ℕ → String → List Delivery → Pump → Pump
unfolding deliver
drain_all id own_id [] s = s
drain_all id own_id (d ∷ rest) s = drain_all id own_id rest (deliver id own_id d s)

abbrev pub started : World → Pump
started w = record {
  terminal_seen = false;
  completed = none;
  candidate = none;
  previous = none;
  failures = [];
  world = w;
}

abbrev require_terminal : Pump → Pump
require_terminal s = if s.terminal_seen then s else join missing_terminal s

-- pump, until both channels are closed
unfoldable pub pump : ℕ → String → List Delivery → World → Pump
unfolding drain_all
pump id own_id deliveries w = require_terminal (drain_all id own_id deliveries (started w))
