-- ===== src/Contracts/RoundTrip.antt =====
-- ParseRuntimeEvent and json.Marshal of services/control-plane/internal/contracts/contracts.go: lemmas
-- on reading what was written.
use harness_forge.Base.{
  String, ◌≡◌, refl, Bool, true, false, not, ◌&&◌, ◌||◌, Option, none, some, List, [], ◌∷◌, arith,
  same_text, is_some, ◌==◌,
}
use harness_forge.Base.Text.{is_blank, parse_uint}
use harness_forge.Base.Maybe.{ensure}
use harness_forge.Base.Json.{
  text, obj, Fields, done, field, plain_fields, last_field, same_key, RawMessage, malformed,
  document, append_fields,
}
use harness_forge.Base.Json.Plain.{IsMap, plain_fields_fixed}
use harness_forge.Contracts.{
  ArtifactCandidate, Payload, RuntimeEvent, phase_changed, assistant_delta, assistant_message,
  tool_started, tool_completed, artifact_candidate, agent_completed, agent_failed, unknown,
  marshal_payload, marshal_candidate, marshal_candidates, optional_field,
}
use harness_forge.Contracts.Decode.{
  not_null, decode_struct, decode_members, require_fields, has_fields, decode_candidate,
  decode_candidates,
}
use harness_forge.Contracts.Parse.{
  artifacts_valid, parse_phase, parse_text, parse_tool_start, parse_tool_end, parse_candidate,
  parse_completion, parse_failure, parse_unknown, parse_payload,
}
use harness_forge.Contracts.Envelope.{Wire, Envelope, open_envelope, parse_event, marshal_event}
use harness_forge.Contracts.Valid.{IsPayload, Option-chain, ensured, parse_payload-IsPayload}

decode-marshal_candidate : (a : ArtifactCandidate) → decode_candidate (marshal_candidate a) ≡ some a
unfolding decode_candidate marshal_candidate require_fields has_fields last_field same_key
    decode_struct decode_members
decode-marshal_candidate a = refl

decode-marshal_candidates :
    (l : List ArtifactCandidate) → decode_candidates (marshal_candidates l) ≡ some l
unfolding decode_candidates marshal_candidates
decode-marshal_candidates [] = refl
decode-marshal_candidates (a ∷ rest) =
    rw (decode-marshal_candidate a, decode-marshal_candidates rest) refl

map_again : (fields : Fields) → IsMap fields → plain_fields fields done ≡ fields
unfolding append_fields
map_again fields h = plain_fields_fixed fields done h

phase-again :
    (p : String)
    → (same_text p "preparing" || same_text p "agent") ≡ true
    → parse_phase (marshal_payload (phase_changed p)) ≡ some (phase_changed p)
unfolding parse_phase marshal_payload require_fields has_fields last_field same_key decode_struct
    decode_members
phase-again p h = rw h refl

text-again :
    (payload : String → Payload) (s : String)
    → marshal_payload (payload s) ≡ obj (field "text" (text s) done)
    → parse_text payload (marshal_payload (payload s)) ≡ some (payload s)
unfolding parse_text require_fields has_fields last_field same_key decode_struct decode_members
text-again payload s e = rw e refl

tool_start-again :
    (id name : String) (input : Fields)
    → is_blank id ≡ false
    → is_blank name ≡ false
    → IsMap input
    → parse_tool_start (marshal_payload (tool_started id name input))
      ≡ some (tool_started id name input)
unfolding parse_tool_start marshal_payload require_fields has_fields last_field same_key
    decode_struct decode_members
tool_start-again id name input h k m = rw (map_again input m, h, k) refl

tool_end-again :
    (id name outcome : String) (output error : Option String)
    → is_blank id ≡ false
    → is_blank name ≡ false
    → (same_text outcome "succeeded" || same_text outcome "failed") ≡ true
    → (same_text outcome "failed" && not (is_some error)) ≡ false
    → parse_tool_end (marshal_payload (tool_completed id name outcome output error))
      ≡ some (tool_completed id name outcome output error)
unfolding parse_tool_end marshal_payload optional_field require_fields has_fields last_field
    same_key decode_struct decode_members
tool_end-again id name outcome none none h k o f = rw (h, k, o) (rw f refl)
tool_end-again id name outcome none (some e) h k o f = rw (h, k, o) (rw f refl)
tool_end-again id name outcome (some t) none h k o f = rw (h, k, o) (rw f refl)
tool_end-again id name outcome (some t) (some e) h k o f = rw (h, k, o) (rw f refl)

candidate-again :
    (l : List ArtifactCandidate)
    → artifacts_valid l ≡ true
    → parse_candidate (marshal_payload (artifact_candidate l)) ≡ some (artifact_candidate l)
unfolding parse_candidate marshal_payload require_fields has_fields last_field same_key
    decode_struct decode_members
candidate-again l h = rw (decode-marshal_candidates l, h) refl

completion-again :
    (session : String) (l : List ArtifactCandidate)
    → is_blank session ≡ false
    → artifacts_valid l ≡ true
    → parse_completion (marshal_payload (agent_completed session l))
      ≡ some (agent_completed session l)
unfolding parse_completion marshal_payload require_fields has_fields last_field same_key
    decode_struct decode_members
completion-again session l b h = rw (decode-marshal_candidates l, b, h) refl

failure-again :
    (code message : String) (retryable : Bool)
    → is_blank code ≡ false
    → is_blank message ≡ false
    → parse_failure (marshal_payload (agent_failed code message retryable))
      ≡ some (agent_failed code message retryable)
unfolding parse_failure marshal_payload require_fields has_fields last_field same_key decode_struct
    decode_members
failure-again code message retryable h k = rw (h, k) refl

unknown-again :
    (fields : Fields)
    → IsMap fields
    → parse_unknown (marshal_payload (unknown fields)) ≡ some (unknown fields)
unfolding parse_unknown marshal_payload
unknown-again fields m = rw (map_again fields m) refl

payload-again :
    (kind : String) (p : Payload)
    → IsPayload kind p
    → parse_payload kind (marshal_payload p) ≡ some p
unfolding parse_payload
payload-again kind (phase_changed p) h = rw h.0 (phase-again p h.1)
payload-again kind (assistant_delta s) h =
    rw h (text-again assistant_delta s (unfold marshal_payload in refl))
payload-again kind (assistant_message s) h =
    rw h (text-again assistant_message s (unfold marshal_payload in refl))
payload-again kind (tool_started id name input) h =
    rw h.0 (tool_start-again id name input h.1 h.2 h.3)
payload-again kind (tool_completed id name outcome output error) h =
    rw h.0 (tool_end-again id name outcome output error h.1 h.2 h.3 h.4)
payload-again kind (artifact_candidate l) h = rw h.0 (candidate-again l h.1)
payload-again kind (agent_completed session l) h = rw h.0 (completion-again session l h.1 h.2)
payload-again kind (agent_failed code message retryable) h =
    rw h.0 (failure-again code message retryable h.1 h.2)
payload-again kind (unknown fields) h = ground (arith, h.0, unknown-again fields h.1)

-- What the libraries promise of one event: the number and the time that are written are read back.
pub record IsWritten (wire : Wire) (e : RuntimeEvent) : Type 0 where
  pub number : parse_uint (wire.write_uint e.sequence) ≡ some e.sequence
  pub time : wire.read_time (wire.write_time e.occurred_at) ≡ some e.occurred_at

-- What ParseRuntimeEvent lets through.
pub record IsEvent (wire : Wire) (e : RuntimeEvent) : Type 0 where
  pub accepted :
      (same_text e.version "1"
        && wire.is_uuid e.run_id
        && not (is_blank e.kind)
        && not (e.occurred_at == 0))
      ≡ true
  pub payload : IsPayload e.kind e.payload

written_payload : (p : Payload) → not_null (some (marshal_payload p)) ≡ true
unfolding marshal_payload
written_payload (phase_changed p) = refl
written_payload (assistant_delta s) = refl
written_payload (assistant_message s) = refl
written_payload (tool_started id name input) = refl
written_payload (tool_completed id name outcome output error) = refl
written_payload (artifact_candidate l) = refl
written_payload (agent_completed session l) = refl
written_payload (agent_failed code message retryable) = refl
written_payload (unknown fields) = refl

event-again :
    (wire : Wire) (e : RuntimeEvent)
    → IsEvent wire e
    → IsWritten wire e
    → parse_event wire (document (marshal_event wire e)) ≡ some e
unfolding parse_event marshal_event open_envelope require_fields has_fields last_field same_key
    decode_struct decode_members
event-again wire e v w =
    rw (written_payload e.payload, w.number, w.time)
      (rw v.accepted (rw (payload-again e.kind e.payload v.payload) refl))

open_envelope-IsEvent :
    (wire : Wire) (a : Envelope) (e : RuntimeEvent) → open_envelope wire a ≡ some e → IsEvent wire e
unfolding open_envelope
open_envelope-IsEvent wire a e h =
    let checks : Bool =
      same_text a.version "1"
      && wire.is_uuid a.run_id
      && not (is_blank a.kind)
      && not (a.occurred_at == 0) in
    let (_, passed, h₁) = Option-chain (ensure checks) _ h in
    let (p, parsed, h₂) = Option-chain (parse_payload a.kind a.payload) _ h₁ in
    let made : e ≡ record {
      version = a.version;
      run_id = a.run_id;
      sequence = a.sequence;
      kind = a.kind;
      occurred_at = a.occurred_at;
      payload = p;
    } =
      ground (arith, h₂) in
    rw made (record {
      accepted = ensured checks passed;
      payload = parse_payload-IsPayload a.kind a.payload p parsed;
    })

pub parse_event-IsEvent :
    (wire : Wire) (raw : RawMessage) (e : RuntimeEvent)
    → parse_event wire raw ≡ some e
    → IsEvent wire e
unfolding parse_event
parse_event-IsEvent wire malformed e h = absurd (cc)
parse_event-IsEvent wire (document v) e h =
    let (_, _, h₁) = Option-chain (require_fields _ v) _ h in
    let (a, _, h₂) = Option-chain (decode_struct _ v _) _ h₁ in open_envelope-IsEvent wire a e h₂

-- An event that ParseRuntimeEvent accepts satisfies the rules of the protocol; and when the number
-- and the time that json.Marshal writes for it are read back, ParseRuntimeEvent reads the same event
-- from its JSON.
pub parse_event-again :
    (wire : Wire) (raw : RawMessage) (e : RuntimeEvent)
    → parse_event wire raw ≡ some e
    → IsWritten wire e
    → IsEvent wire e × (parse_event wire (document (marshal_event wire e)) ≡ some e)
parse_event-again wire raw e h w =
    let v = parse_event-IsEvent wire raw e h in (v, event-again wire e v w)
