-- ===== src/Contracts/Envelope.antt =====
-- services/control-plane/internal/contracts/contracts.go: ParseRuntimeEvent, and how json.Marshal
-- writes an event.
use harness_forge.Base.{
  ℕ, String, Bool, not, ◌&&◌, Option, none, some, List, [], ◌∷◌, if◌then◌else◌, same_text, ◌==◌,
}
use harness_forge.Base.Text.{is_blank}
use harness_forge.Base.Maybe.{◌>>=◌, ◌>>◌, ensure}
use harness_forge.Base.Json.{
  Json, null, number, text, obj, done, field, same_key, RawMessage, malformed, document,
}
use harness_forge.Contracts.{RuntimeEvent, marshal_payload}
use harness_forge.Contracts.Decode.{text_into, uint_into, decode_struct, require_fields}
use harness_forge.Contracts.Parse.{parse_payload}

-- What lies outside the repository: uuid.Parse of github.com/google/uuid, and how encoding/json
-- writes and reads a time.Time and writes a uint64.
pub record Wire : Type 0 where
  pub is_uuid : String → Bool
  pub read_time : String → Option ℕ
  pub write_time : ℕ → String
  pub write_uint : ℕ → String

pub record Envelope : Type 0 where
  pub version : String
  pub run_id : String
  pub sequence : ℕ
  pub kind : String
  pub occurred_at : ℕ
  pub payload : Json

abbrev pub time_into : Wire → Json → ℕ → Option ℕ
time_into wire null old = some old
time_into wire (text s) old = wire.read_time s
time_into wire _ old = none

abbrev pub envelope_step : Wire → String → Json → Envelope → Option Envelope
envelope_step wire k v a =
    if same_key k "version"
    then (do s ← text_into v a.version; some (record a { version = s }))
    else if same_key k "run_id"
    then (do s ← text_into v a.run_id; some (record a { run_id = s }))
    else if same_key k "sequence"
    then (do n ← uint_into v a.sequence; some (record a { sequence = n }))
    else if same_key k "type"
    then (do s ← text_into v a.kind; some (record a { kind = s }))
    else if same_key k "occurred_at"
    then (do t ← time_into wire v a.occurred_at; some (record a { occurred_at = t }))
    else if same_key k "payload"
    then some (record a { payload = v })
    else none

abbrev pub zero_envelope : Envelope
zero_envelope = record {
  version = "";
  run_id = "";
  sequence = 0;
  kind = "";
  occurred_at = 0;
  payload = null;
}

abbrev pub envelope_names : List String
envelope_names = "version" ∷ "run_id" ∷ "sequence" ∷ "type" ∷ "occurred_at" ∷ "payload" ∷ []

-- the checks on the envelope, and the payload
unfoldable pub open_envelope : Wire → Envelope → Option RuntimeEvent
open_envelope wire a = do
  ensure (
      same_text a.version "1"
      && wire.is_uuid a.run_id
      && not (is_blank a.kind)
      && not (a.occurred_at == 0))
  p ← parse_payload a.kind a.payload
  some (record {
    version = a.version;
    run_id = a.run_id;
    sequence = a.sequence;
    kind = a.kind;
    occurred_at = a.occurred_at;
    payload = p;
  })

abbrev pub parse_document : Wire → Json → Option RuntimeEvent
parse_document wire v = do
  require_fields envelope_names v
  a ← decode_struct (envelope_step wire) v zero_envelope
  open_envelope wire a

-- ParseRuntimeEvent
unfoldable pub parse_event : Wire → RawMessage → Option RuntimeEvent
unfolding open_envelope
parse_event wire malformed = none
parse_event wire (document v) = parse_document wire v

-- json.Marshal of a RuntimeEvent
unfoldable pub marshal_event : Wire → RuntimeEvent → Json
marshal_event wire e = obj (
    field "version" (text e.version) (
      field "run_id" (text e.run_id) (
        field "sequence" (number (wire.write_uint e.sequence)) (
          field "type" (text e.kind) (
            field "occurred_at" (text (wire.write_time e.occurred_at))
              (field "payload" (marshal_payload e.payload) done))))))
