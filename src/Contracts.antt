-- ===== src/Contracts.antt =====
-- services/control-plane/internal/contracts/contracts.go: the events of the Runtime protocol.
pub mod Decode
pub mod Parse
pub mod Envelope
pub mod Valid
pub mod Manifest
pub mod Accepted
pub mod Exact
pub mod RoundTrip
use harness_forge.Base.{
  ℕ, String, Bool, true, false, not, ◌&&◌, Option, none, some, List, [], ◌∷◌, same_text,
}
use harness_forge.Base.Json.{Json, bool, text, arr, obj, Items, nil, cons, Fields, done, field}

pub record ArtifactCandidate : Type 0 where
  pub name : String
  pub title : String
  pub kind : String
  pub entry : String
  pub primary : Bool

-- The payload structs; `unknown` is the map[string]any of an event type that V1 does not name.
pub data Payload : Type 0 where
  phase_changed : String → Payload
  assistant_delta : String → Payload
  assistant_message : String → Payload
  tool_started : String → String → Fields → Payload
  tool_completed : String → String → String → Option String → Option String → Payload
  artifact_candidate : List ArtifactCandidate → Payload
  agent_completed : String → List ArtifactCandidate → Payload
  agent_failed : String → String → Bool → Payload
  unknown : Fields → Payload

pub record RuntimeEvent : Type 0 where
  pub version : String
  pub run_id : String
  pub sequence : ℕ
  pub kind : String
  pub occurred_at : ℕ
  pub payload : Payload

unfoldable marshal_candidate : ArtifactCandidate → Json
marshal_candidate a = obj (
    field "name" (text a.name) (
      field "title" (text a.title) (
        field "type" (text a.kind)
          (field "entry" (text a.entry) (field "primary" (bool a.primary) done)))))

unfoldable marshal_candidates : List ArtifactCandidate → Items
unfolding marshal_candidate
marshal_candidates [] = nil
marshal_candidates (a ∷ rest) = cons (marshal_candidate a) (marshal_candidates rest)

-- a *string with omitempty
unfoldable optional_field : String → Option String → Fields → Fields
optional_field key none rest = rest
optional_field key (some s) rest = field key (text s) rest

-- json.Marshal(e.Payload)
unfoldable pub marshal_payload : Payload → Json
unfolding marshal_candidates optional_field
marshal_payload (phase_changed p) = obj (field "phase" (text p) done)
marshal_payload (assistant_delta t) = obj (field "text" (text t) done)
marshal_payload (assistant_message t) = obj (field "text" (text t) done)
marshal_payload (tool_started id name input) =
    obj (field "tool_call_id" (text id) (field "name" (text name) (field "input" (obj input) done)))
marshal_payload (tool_completed id name outcome output error) = obj (
    field "tool_call_id" (text id) (
      field "name" (text name) (
        field "outcome" (text outcome)
          (optional_field "output" output (optional_field "error" error done)))))
marshal_payload (artifact_candidate candidates) =
    obj (field "artifacts" (arr (marshal_candidates candidates)) done)
marshal_payload (agent_completed session candidates) = obj (
    field "candidate_sdk_session_id" (text session)
      (field "artifacts" (arr (marshal_candidates candidates)) done))
marshal_payload (agent_failed code message retryable) = obj (
    field "code" (text code)
      (field "message" (text message) (field "retryable" (bool retryable) done)))
marshal_payload (unknown members) = obj members

abbrev same_bool : Bool → Bool → Bool
same_bool true c = c
same_bool false c = not c

-- reflect.DeepEqual on two candidates, and on two lists of them that are not nil
unfoldable same_candidate : ArtifactCandidate → ArtifactCandidate → Bool
same_candidate a b =
    same_text a.name b.name
    && same_text a.title b.title
    && same_text a.kind b.kind
    && same_text a.entry b.entry
    && same_bool a.primary b.primary

unfoldable pub same_candidates : List ArtifactCandidate → List ArtifactCandidate → Bool
unfolding same_candidate
same_candidates [] [] = true
same_candidates (a ∷ rest) (b ∷ rest') = same_candidate a b && same_candidates rest rest'
same_candidates _ _ = false

abbrev terminal_payload : String → Payload → Bool
terminal_payload kind (agent_completed _ _) = same_text kind "agent.completed"
terminal_payload kind (agent_failed _ _ _) = same_text kind "agent.failed"
terminal_payload kind _ = false

-- IsTerminalEvent
unfoldable is_terminal_event : RuntimeEvent → Bool
is_terminal_event event = terminal_payload event.kind event.payload

-- what one event adds to `lastCandidate` and `sawCandidate`, as one option
abbrev pub candidate_after :
    Payload → Option (List ArtifactCandidate) → Option (List ArtifactCandidate)
candidate_after (artifact_candidate artifacts) last = some artifacts
candidate_after _ last = last

-- !sawCandidate || !reflect.DeepEqual(lastCandidate, artifacts), negated
abbrev matches_last : Option (List ArtifactCandidate) → List ArtifactCandidate → Bool
matches_last none artifacts = false
matches_last (some last) artifacts = same_candidates last artifacts

abbrev pub completion_matches : Option (List ArtifactCandidate) → Payload → Bool
completion_matches last (agent_completed _ artifacts) = matches_last last artifacts
completion_matches last _ = true

unfoldable pub sequence_from : Option (List ArtifactCandidate) → List RuntimeEvent → Bool
sequence_from last [] = true
sequence_from last (e ∷ events) =
    completion_matches last e.payload && sequence_from (candidate_after e.payload last) events

-- ValidateRuntimeEventSequence, as a test
unfoldable pub sequence_valid : List RuntimeEvent → Bool
unfolding sequence_from
sequence_valid events = sequence_from none events
