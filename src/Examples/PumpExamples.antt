-- ===== src/Examples/PumpExamples.antt =====
-- Witnesses for the theorem on the pump.
use harness_forge.Base.{◌≡◌, refl, true, List, [], ◌∷◌, is_some}
use harness_forge.Base.Tables.{find, update, exists, first}
use harness_forge.Base.Text.{is_blank}
use harness_forge.Contracts.{
  RuntimeEvent, artifact_candidate, agent_completed, sequence_valid, marshal_payload,
  same_candidates,
}
use harness_forge.Broker.{new_broker}
use harness_forge.Durable.{World, healthy, change}
use harness_forge.RunChanges.{record_runtime_event}
use harness_forge.Events.{
  append_event_tx, recorded_sequence, recorded_key, append_new, validate_event, announced,
}
use harness_forge.Pump.{Delivery, received, pump}
use harness_forge.Pump.Sound.{events_in, pump_sound}
use harness_forge.Examples.Data.{active}

abbrev offered : RuntimeEvent
offered = record {
  version = "1";
  run_id = "run-7";
  sequence = 1;
  kind = "artifact.candidate";
  occurred_at = 30;
  payload = artifact_candidate [];
}

abbrev completed_event : RuntimeEvent
completed_event = record offered {
  sequence = 2;
  kind = "agent.completed";
  payload = agent_completed "session-2" [];
}

abbrev world : World
world = record { db = active; broker = new_broker }

abbrev deliveries : List Delivery
deliveries = received healthy offered 100 30 ∷ received healthy completed_event 101 31 ∷ []

pump_step : (pump 7 "run-7" deliveries world).failures ≡ []
unfolding pump change record_runtime_event find exists append_event_tx recorded_sequence first
    recorded_key append_new validate_event is_blank marshal_payload announced update same_candidates
pump_step = refl

pump_sound_example :
    (is_some (pump 7 "run-7" deliveries world).completed ≡ true)
    × (sequence_valid (events_in deliveries) ≡ true)
pump_sound_example = pump_sound 7 "run-7" deliveries world pump_step
