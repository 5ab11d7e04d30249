-- ===== src/Pump/Sound.antt =====
-- `pump` of services/control-plane/internal/runs/coordinator.go: lemmas on what it has seen.
use harness_forge.Base.{
  ℕ, String, ◌≡◌, ◌≢◌, inl, inr, refl, ◌∙◌, Bool, true, false, not, ◌||◌, some, List, [], ◌∷◌,
  arith, leb, Bool-cases, same_text, holds, is_some,
}
use harness_forge.Schema.{Result, ok, err}
use harness_forge.Contracts.{
  Payload, RuntimeEvent, artifact_candidate, agent_completed, agent_failed, unknown,
  candidate_after, completion_matches, sequence_from, sequence_valid, phase_changed,
  assistant_delta, assistant_message, tool_started, tool_completed,
}
use harness_forge.RunChanges.{record_runtime_event}
use harness_forge.Durable.{World, Connection, change, silent}
use harness_forge.Pump.{
  Delivery, received, unreadable, failed_with, meanwhile, Pump, note_payload, recorded, store_event,
  receive, deliver, drain_all, started, pump, is_unknown, fail_with,
}

-- the events that are read back
abbrev pub events_in : List Delivery → List RuntimeEvent
events_in [] = []
events_in (received conn e fresh now ∷ rest) = e ∷ events_in rest
events_in (_ ∷ rest) = events_in rest

recorded_lem :
    (r : Result (Unit {0}) × World) (s : Pump)
    → (recorded r s).failures ≡ []
    → (s.failures ≡ [])
      × ((recorded r s).candidate ≡ s.candidate)
      × ((recorded r s).completed ≡ s.completed)
      × ((recorded r s).terminal_seen ≡ s.terminal_seen)
recorded_lem (ok u, w) s h = (h, refl, refl, refl)
recorded_lem (err e, w) s h = absurd (cc)

-- the run has a completion exactly when its terminal event was seen, as long as nothing failed
abbrev IsSettled : Pump → Type 0
IsSettled s = s.terminal_seen ≡ is_some s.completed

note_payload_lem :
    (p : Payload) (s : Pump)
    → (note_payload p s).failures ≡ []
    → (s.failures ≡ [])
      × (completion_matches s.candidate p ≡ true)
      × ((note_payload p s).candidate ≡ candidate_after p s.candidate)
      × (IsSettled s → IsSettled (note_payload p s))
unfolding note_payload
note_payload_lem (artifact_candidate a) s h = (h, refl, refl, λ k. k)
note_payload_lem (agent_completed c a) s h = (ground arith, ground arith, refl, λ k. refl)
note_payload_lem (agent_failed a b c) s h = absurd (cc)
note_payload_lem (phase_changed a) s h = (h, refl, refl, λ k. k)
note_payload_lem (assistant_delta a) s h = (h, refl, refl, λ k. k)
note_payload_lem (assistant_message a) s h = (h, refl, refl, λ k. k)
note_payload_lem (tool_started a b c) s h = (h, refl, refl, λ k. k)
note_payload_lem (tool_completed a b c d e) s h = (h, refl, refl, λ k. k)
note_payload_lem (unknown a) s h = (h, refl, refl, λ k. k)

-- One delivery that adds no failure to a pump without one.
pub record Clean (s : Pump) (p : Payload) (after : Pump) : Type 0 where
  pub before : s.failures ≡ []
  pub matching : completion_matches s.candidate p ≡ true
  pub candidate : after.candidate ≡ candidate_after p s.candidate
  pub settled : IsSettled s → IsSettled after

unknown-Clean :
    (p : Payload) (s after : Pump)
    → is_unknown p ≡ true
    → after.failures ≡ []
    → after.failures ≡ s.failures
    → after.candidate ≡ s.candidate
    → after.terminal_seen ≡ s.terminal_seen
    → after.completed ≡ s.completed
    → Clean s p after
unknown-Clean (unknown a) s after u h f c t d = record {
  before = ground arith;
  matching = refl;
  candidate = c;
  settled = λ k. ground arith;
}
unknown-Clean (artifact_candidate a) s after u h f c t d = absurd (cc)
unknown-Clean (agent_completed a b) s after u h f c t d = absurd (cc)
unknown-Clean (agent_failed a b e) s after u h f c t d = absurd (cc)
unknown-Clean (phase_changed a) s after u h f c t d = absurd (cc)
unknown-Clean (assistant_delta a) s after u h f c t d = absurd (cc)
unknown-Clean (assistant_message a) s after u h f c t d = absurd (cc)
unknown-Clean (tool_started a b e) s after u h f c t d = absurd (cc)
unknown-Clean (tool_completed a b e g i) s after u h f c t d = absurd (cc)

receive-Clean :
    (id : ℕ) (own_id : String) (conn : Connection) (e : RuntimeEvent) (fresh now : ℕ) (s : Pump)
    → (receive id own_id conn e fresh now s).failures ≡ []
    → Clean s e.payload (receive id own_id conn e fresh now s)
receive-Clean id own_id conn e fresh now s h =
    let s' : Pump = record s { previous = some e.sequence } in
    elim (Bool-cases (not (same_text e.run_id own_id) || holds (leb e.sequence) s.previous)) [
      | inl stale ↦ absurd (unfold receive in ground arith)
      | inr fine ↦ elim (Bool-cases (is_unknown e.payload)) [
        | inl u ↦
            let same : receive id own_id conn e fresh now s ≡ s' = unfold receive in ground arith in
            rw same (unknown-Clean e.payload s s' u (rw same at h) refl refl refl refl)
        | inr k ↦ elim (Bool-cases s.terminal_seen) [
          | inl late ↦ absurd (unfold receive in ground arith)
          | inr first' ↦
              let same : receive id own_id conn e fresh now s
                  ≡ store_event id own_id conn e fresh now (note_payload e.payload s') =
                unfold receive in ground arith in
              rw same (stored (rw same at h))
        ]
      ]
    ]
  where
    noted : Pump
    noted = note_payload e.payload (record s { previous = some e.sequence })

    answer : Result (Unit {0}) × World
    answer = change conn id (silent (record_runtime_event id own_id e fresh now)) noted.world

    stored :
        (store_event id own_id conn e fresh now noted).failures ≡ []
        → Clean s e.payload (store_event id own_id conn e fresh now noted)
    stored q =
        let (f, c, d, t) = recorded_lem answer noted (unfold store_event in q) in
        let (g, m, c', k) =
          note_payload_lem e.payload (record s { previous = some e.sequence }) f in
        unfold store_event in
        record { before = g; matching = m; candidate = c ∙ c'; settled = λ h'. t ∙ k h' ∙ rw d }

fail_with_lem : (b : Bool) (s : Pump) → (fail_with b s).failures ≢ []
fail_with_lem true s h = cc
fail_with_lem false s h = cc

drain_all_sound :
    (id : ℕ) (own_id : String) (deliveries : List Delivery) (s : Pump)
    → (drain_all id own_id deliveries s).failures ≡ []
    → (s.failures ≡ [])
      × (sequence_from s.candidate (events_in deliveries) ≡ true)
      × (IsSettled s → IsSettled (drain_all id own_id deliveries s))
unfolding drain_all deliver sequence_from
drain_all_sound id own_id [] s h = (h, refl, λ k. k)
drain_all_sound id own_id (received conn e fresh now ∷ rest) s h =
    let (f, v, k) = drain_all_sound id own_id rest (receive id own_id conn e fresh now s) h in
    let c = receive-Clean id own_id conn e fresh now s f in
    (c.before, rw c.matching (rw c.candidate at v), λ q. k (c.settled q))
drain_all_sound id own_id (unreadable ∷ rest) s h =
    let (f, v, k) = drain_all_sound id own_id rest _ h in absurd (cc)
drain_all_sound id own_id (failed_with b ∷ rest) s h =
    let (f, v, k) = drain_all_sound id own_id rest (fail_with b s) h in absurd (fail_with_lem b s f)
drain_all_sound id own_id (meanwhile others ∷ rest) s h = drain_all_sound id own_id rest _ h

-- When a pump ends without a failure, whatever the deliveries and what others did in between, the
-- agent completed, and the events that were read back pass ValidateRuntimeEventSequence: each
-- completion has the artifacts of the last candidate.
pub pump_sound :
    (id : ℕ) (own_id : String) (deliveries : List Delivery) (w : World)
    → (pump id own_id deliveries w).failures ≡ []
    → (is_some (pump id own_id deliveries w).completed ≡ true)
      × (sequence_valid (events_in deliveries) ≡ true)
unfolding pump sequence_valid
pump_sound id own_id deliveries w h =
    let last = drain_all id own_id deliveries (started w) in
    elim (Bool-cases last.terminal_seen) [
      | inr open' ↦ absurd (ground arith)
      | inl ended ↦
          let (f, v, k) = drain_all_sound id own_id deliveries (started w) (rw ended at h) in
          (ground (arith, k refl), v)
    ]
