-- ===== src/Contracts/Parse.antt =====
-- services/control-plane/internal/contracts/contracts.go: parseEventPayload, with the rules
-- on artifacts. Which error is given is left out: `none` is any.
use harness_forge.Base.{
  String, Bool, true, false, not, ◌&&◌, ◌||◌, Option, none, some, List, [], ◌∷◌, if◌then◌else◌,
  same_text, is_some,
}
use harness_forge.Base.Tables.{exists}
use harness_forge.Base.Text.{is_blank, is_absolute, split_path}
use harness_forge.Base.Maybe.{◌>>=◌, ◌>>◌, ensure}
use harness_forge.Base.Json.{Json, obj, Fields, done, same_key, last_field, plain_fields}
use harness_forge.Contracts.{
  ArtifactCandidate, Payload, phase_changed, assistant_delta, assistant_message, tool_started,
  tool_completed, artifact_candidate, agent_completed, agent_failed, unknown,
}
use harness_forge.Contracts.Decode.{
  text_into, bool_into, pointer_into, map_into, candidates_into, decode_struct, require_fields,
  not_null,
}

-- isSafeRelativePath
unfoldable pub is_safe_path : String → Bool
is_safe_path value =
    not (same_text value "" || is_absolute value || same_text value ".")
    && not (exists (same_text "..") (split_path value))

abbrev pub is_artifact_type : String → Bool
is_artifact_type t =
    same_text t "html" || same_text t "markdown" || same_text t "image" || same_text t "data"

abbrev pub artifact_valid : ArtifactCandidate → Bool
artifact_valid a =
    not (is_blank a.name || is_blank a.title) && is_artifact_type a.kind && is_safe_path a.entry

-- validateArtifacts
unfoldable pub artifacts_valid : List ArtifactCandidate → Bool
artifacts_valid [] = true
artifacts_valid (a ∷ rest) = artifact_valid a && artifacts_valid rest

-- the structs of the payloads while they are filled
pub record ToolStart : Type 0 where
  pub tool_call_id : String
  pub name : String
  pub input : Option Fields

pub record ToolEnd : Type 0 where
  pub tool_call_id : String
  pub name : String
  pub outcome : String
  pub output : Option String
  pub error : Option String

pub record Completion : Type 0 where
  pub session : String
  pub artifacts : Option (List ArtifactCandidate)

pub record Failure : Type 0 where
  pub code : String
  pub message : String
  pub retryable : Bool

-- a struct with one string
abbrev pub one_text_step : String → String → Json → String → Option String
one_text_step name k v s = if same_key k name then text_into v s else none

abbrev pub tool_start_step : String → Json → ToolStart → Option ToolStart
tool_start_step k v a =
    if same_key k "tool_call_id"
    then (do s ← text_into v a.tool_call_id; some (record a { tool_call_id = s }))
    else if same_key k "name"
    then (do s ← text_into v a.name; some (record a { name = s }))
    else if same_key k "input"
    then (do m ← map_into v a.input; some (record a { input = m }))
    else none

abbrev pub tool_end_step : String → Json → ToolEnd → Option ToolEnd
tool_end_step k v a =
    if same_key k "tool_call_id"
    then (do s ← text_into v a.tool_call_id; some (record a { tool_call_id = s }))
    else if same_key k "name"
    then (do s ← text_into v a.name; some (record a { name = s }))
    else if same_key k "outcome"
    then (do s ← text_into v a.outcome; some (record a { outcome = s }))
    else if same_key k "output"
    then (do s ← pointer_into v; some (record a { output = s }))
    else if same_key k "error"
    then (do s ← pointer_into v; some (record a { error = s }))
    else none

abbrev pub artifacts_step :
    String → Json → Option (List ArtifactCandidate) → Option (Option (List ArtifactCandidate))
artifacts_step k v a = if same_key k "artifacts" then candidates_into v else none

abbrev pub completion_step : String → Json → Completion → Option Completion
completion_step k v a =
    if same_key k "candidate_sdk_session_id"
    then (do s ← text_into v a.session; some (record a { session = s }))
    else if same_key k "artifacts"
    then (do l ← candidates_into v; some (record a { artifacts = l }))
    else none

abbrev pub failure_step : String → Json → Failure → Option Failure
failure_step k v a =
    if same_key k "code"
    then (do s ← text_into v a.code; some (record a { code = s }))
    else if same_key k "message"
    then (do s ← text_into v a.message; some (record a { message = s }))
    else if same_key k "retryable"
    then (do b ← bool_into v a.retryable; some (record a { retryable = b }))
    else none

unfoldable pub parse_phase : Json → Option Payload
parse_phase v = do
  require_fields ("phase" ∷ []) v
  p ← decode_struct (one_text_step "phase") v ""
  ensure (same_text p "preparing" || same_text p "agent")
  some (phase_changed p)

unfoldable pub parse_text : (String → Payload) → Json → Option Payload
parse_text payload v = do
  require_fields ("text" ∷ []) v
  t ← decode_struct (one_text_step "text") v ""
  some (payload t)

unfoldable pub parse_tool_start : Json → Option Payload
parse_tool_start v = do
  require_fields ("tool_call_id" ∷ "name" ∷ "input" ∷ []) v
  a ← decode_struct tool_start_step v (record { tool_call_id = ""; name = ""; input = none })
  ensure (not (is_blank a.tool_call_id || is_blank a.name))
  input ← a.input
  some (tool_started a.tool_call_id a.name input)

-- a member that is there is not null
abbrev pub absent_or_set : String → Fields → Bool
absent_or_set name fields =
    not (is_some (last_field name fields)) || not_null (last_field name fields)

unfoldable pub parse_tool_end : Json → Option Payload
parse_tool_end v = do
  fields ← require_fields ("tool_call_id" ∷ "name" ∷ "outcome" ∷ []) v
  ensure (absent_or_set "output" fields && absent_or_set "error" fields)
  a ←
      decode_struct tool_end_step v
        (record { tool_call_id = ""; name = ""; outcome = ""; output = none; error = none })
  ensure (not (is_blank a.tool_call_id || is_blank a.name))
  ensure (same_text a.outcome "succeeded" || same_text a.outcome "failed")
  ensure (not (same_text a.outcome "failed" && not (is_some a.error)))
  some (tool_completed a.tool_call_id a.name a.outcome a.output a.error)

unfoldable pub parse_candidate : Json → Option Payload
parse_candidate v = do
  require_fields ("artifacts" ∷ []) v
  l ← decode_struct artifacts_step v none
  artifacts ← l
  ensure (artifacts_valid artifacts)
  some (artifact_candidate artifacts)

unfoldable pub parse_completion : Json → Option Payload
parse_completion v = do
  require_fields ("candidate_sdk_session_id" ∷ "artifacts" ∷ []) v
  a ← decode_struct completion_step v (record { session = ""; artifacts = none })
  ensure (not (is_blank a.session))
  artifacts ← a.artifacts
  ensure (artifacts_valid artifacts)
  some (agent_completed a.session artifacts)

unfoldable pub parse_failure : Json → Option Payload
parse_failure v = do
  require_fields ("code" ∷ "message" ∷ "retryable" ∷ []) v
  a ← decode_struct failure_step v (record { code = ""; message = ""; retryable = false })
  ensure (not (is_blank a.code || is_blank a.message))
  some (agent_failed a.code a.message a.retryable)

-- the payload of an event type that is not named
unfoldable pub parse_unknown : Json → Option Payload
parse_unknown (obj fields) = some (unknown (plain_fields fields done))
parse_unknown _ = none

-- parseEventPayload
unfoldable pub parse_payload : String → Json → Option Payload
parse_payload kind v =
    if same_text kind "phase.changed"
    then parse_phase v
    else if same_text kind "assistant.delta"
    then parse_text assistant_delta v
    else if same_text kind "assistant.message"
    then parse_text assistant_message v
    else if same_text kind "tool.started"
    then parse_tool_start v
    else if same_text kind "tool.completed"
    then parse_tool_end v
    else if same_text kind "artifact.candidate"
    then parse_candidate v
    else if same_text kind "agent.completed"
    then parse_completion v
    else if same_text kind "agent.failed"
    then parse_failure v
    else parse_unknown v
