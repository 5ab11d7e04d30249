-- ===== src/Examples/ContractExamples.antt =====
-- Witnesses for the theorems on the Runtime protocol and on the outputs of a worker.
use harness_forge.Base.{
  ◌↔◌, same_int, ℕ, String, ◌≡◌, refl, true, false, some, List, [], ◌∷◌, pos, if◌then◌else◌, ◌==◌,
}
use harness_forge.Base.Json.{
  Json, text, number, bool, obj, arr, nil, cons, done, field, document, malformed, RawMessage,
  last_field, same_key,
}
use harness_forge.Contracts.{ArtifactCandidate, RuntimeEvent, phase_changed}
use harness_forge.Contracts.Parse.{is_safe_path, parse_payload, parse_phase, artifacts_valid}
use harness_forge.Contracts.Envelope.{Wire, parse_event, marshal_event}
use harness_forge.Contracts.Exact.{check_manifest_iff}
use harness_forge.Contracts.Manifest.{
  ArtifactManifest, check_manifest, parse_manifest, IsManifest, parse_int, names_unique,
  count_primary,
}
use harness_forge.Contracts.RoundTrip.{IsWritten, IsEvent, parse_event-again}
use harness_forge.Artifacts.Paths.{
  valid_relative_path, is_valid_path, clean_path, has_escape, contains_text,
}
use harness_forge.Artifacts.Safe.{valid_relative_path-is_safe_path}
use harness_forge.Artifacts.Outputs.{
  ArtifactPolicy, Visit, entry, directory, ValidatedManifest, validate_manifest, walk, conclude,
}
use harness_forge.Artifacts.Limits.{IsPublishable, validate_manifest-IsPublishable}
use harness_forge.Contracts.Decode.{
  require_fields, decode_struct, decode_members, decode_candidates,
}
use harness_forge.Base.Text.{parse_uint, is_blank, cut_prefix, split_path}
use harness_forge.Base.Tables.{exists}

-- a clock and a counter of one digit
abbrev digit : ℕ → String
digit n = if n == 1 then "1" else "7"

abbrev wire : Wire
wire = record {
  is_uuid = λ (s : String). true;
  read_time = λ (s : String). some 7;
  write_time = digit;
  write_uint = digit;
}

abbrev phase_event : RuntimeEvent
phase_event = record {
  version = "1";
  run_id = "r";
  sequence = 1;
  kind = "phase.changed";
  occurred_at = 7;
  payload = phase_changed "agent";
}

-- the type comes first, and a member is written in capitals
abbrev phase_json : Json
phase_json = obj (
    field "type" (text "phase.changed") (
      field "payload" (obj (field "phase" (text "agent") done)) (
        field "version" (text "1") (
          field "run_id" (text "r") (
            field "sequence" (number "1")
              (field "occurred_at" (text "now") (field "VERSION" (text "1") done)))))))

phase_read : parse_event wire (document phase_json) ≡ some phase_event
unfolding parse_event require_fields last_field decode_struct decode_members same_key parse_uint
    is_blank parse_payload parse_phase
phase_read = refl

phase_event-IsWritten : IsWritten wire phase_event
unfolding parse_uint
phase_event-IsWritten = record { number = refl; time = refl }

parse_event-again_example :
    IsEvent wire phase_event
    × (parse_event wire (document (marshal_event wire phase_event)) ≡ some phase_event)
parse_event-again_example =
    parse_event-again wire (document phase_json) phase_event phase_read phase_event-IsWritten

abbrev page : ArtifactCandidate
page = record { name = "page"; title = "A page"; kind = "html"; entry = "a/b.html"; primary = true }

abbrev page_json : Json
page_json = obj (
    field "name" (text "page") (
      field "title" (text "A page") (
        field "type" (text "html")
          (field "entry" (text "a/b.html") (field "primary" (bool true) done)))))

abbrev manifest_json : RawMessage
manifest_json =
    document (
      obj (field "schema_version" (number "1") (field "artifacts" (arr (cons page_json nil)) done)))

manifest_read : parse_manifest manifest_json ≡ some (page ∷ [])
unfolding parse_manifest decode_struct decode_members same_key parse_int cut_prefix parse_uint
    decode_candidates last_field artifacts_valid is_blank is_safe_path exists split_path
    names_unique count_primary
manifest_read = refl

page_path : valid_relative_path "a/b.html" ≡ true
unfolding valid_relative_path is_valid_path exists split_path clean_path has_escape contains_text
    cut_prefix
page_path = refl

valid_relative_path-is_safe_path_example : is_safe_path "a/b.html" ≡ true
valid_relative_path-is_safe_path_example = valid_relative_path-is_safe_path "a/b.html" page_path

-- a backslash, an escaped dot, and an empty segment
unsafe_path : valid_relative_path "a\\b" ≡ false
unfolding valid_relative_path is_valid_path exists split_path clean_path
unsafe_path = refl

escaped_path : valid_relative_path "a/%2e" ≡ false
unfolding valid_relative_path is_valid_path exists split_path clean_path has_escape contains_text
    cut_prefix
escaped_path = refl

empty_segment : valid_relative_path "a//b" ≡ false
unfolding valid_relative_path is_valid_path exists split_path
empty_segment = refl

abbrev policy : ArtifactPolicy
policy = record {
  manifest_schema_version = pos 1;
  allowed_types = "html" ∷ [];
  max_file_bytes = pos 8;
  max_total_bytes = pos 12;
}

abbrev visits : List Visit
visits =
    directory
    ∷ entry "a/b.html" true 5 (record { length = 6; parsed = malformed })
    ∷ entry "artifact-manifest.json" true 6 (record { length = 6; parsed = manifest_json })
    ∷ []

abbrev pub products : ValidatedManifest
products = record {
  artifacts = page ∷ [];
  files = record { path = "a/b.html"; contents = record { length = 6; parsed = malformed } } ∷ [];
}

outputs_read : validate_manifest policy true visits ≡ some products
unfolding validate_manifest walk valid_relative_path is_valid_path exists split_path clean_path
    has_escape contains_text cut_prefix conclude parse_manifest decode_struct decode_members
    same_key parse_int parse_uint last_field is_blank decode_candidates count_primary names_unique
    artifacts_valid is_safe_path
outputs_read = refl

validate_manifest-IsPublishable_example :
    (max_file : ℕ) × (max_total : ℕ) × (policy.max_file_bytes ≡ pos max_file)
    × (policy.max_total_bytes ≡ pos max_total)
    × IsPublishable policy max_file max_total products
validate_manifest-IsPublishable_example =
    validate_manifest-IsPublishable policy true visits products outputs_read

abbrev manifest : ArtifactManifest
manifest = record { schema_version = pos 1; artifacts = some (page ∷ []) }

check_manifest_iff_example : (check_manifest manifest ≡ some (page ∷ [])) ↔ (
    (same_int manifest.schema_version (pos 1) ≡ true)
    × (manifest.artifacts ≡ some (page ∷ []))
    × IsManifest (page ∷ []))
check_manifest_iff_example = check_manifest_iff manifest (page ∷ [])
