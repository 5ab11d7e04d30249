-- ===== src/Examples/Data.antt =====
-- A project with one conversation, one message and no run, and what happens to its first run.
use harness_forge.Base.{none, some, [], ◌∷◌, true}
use harness_forge.Base.Json.{Json, document, text, obj, field, done}
use harness_forge.Schema.{
  queued, running, failed, preparing, publishing, Artifact, Run, Event, Project, Conversation,
  Message, user, Database, empty_database,
}
use harness_forge.RunCommit.{Format}

abbrev pub project : Project
project = record {
  id = 1;
  name = "atlas";
  profile_id = "geo-analysis";
  profile_version = "1";
  created_at = 10;
  updated_at = 10;
  deleted_at = none;
}

abbrev pub conversation : Conversation
conversation = record {
  id = 2;
  project_id = 1;
  title = "";
  active_sdk_session_id = none;
  created_at = 11;
  updated_at = 11;
  deleted_at = none;
}

abbrev pub message : Message
message = record {
  id = 3;
  conversation_id = 2;
  role = user;
  content = "map the rivers";
  created_at = 12;
  run_id = none;
  runtime_sequence = none;
}

abbrev pub seeded : Database
seeded = record empty_database {
  projects = project ∷ [];
  conversations = conversation ∷ [];
  messages = message ∷ [];
}

abbrev pub waiting : Run
waiting = record {
  id = 7;
  conversation_id = 2;
  trigger_message_id = 3;
  status = queued;
  phase = none;
  finalized_at = none;
  source_sdk_session_id = none;
  candidate_sdk_session_id = none;
  sandbox_provider = none;
  sandbox_ref = none;
  error = none;
  created_at = 20;
  updated_at = 20;
  next_event_sequence = 1;
}

abbrev pub submitted : Database
submitted = record seeded { runs = waiting ∷ [] }

abbrev pub hello : Event
hello = record {
  run_id = 7;
  sequence = 0;
  runtime_sequence = none;
  dedupe_key = some "hello";
  kind = "note";
  payload = document (obj done);
  occurred_at = 30;
}

abbrev pub claimed_run : Run
claimed_run = record waiting { status = running; phase = some preparing; updated_at = 21 }

abbrev pub active : Database
active = record submitted { runs = claimed_run ∷ [] }

abbrev pub lost_worker : Json
lost_worker = obj (field "code" (text "worker_lost") done)

abbrev pub failed_run : Run
failed_run = record claimed_run { status = failed; error = some lost_worker; updated_at = 40 }

abbrev pub failed_database : Database
failed_database = record submitted { runs = failed_run ∷ [] }

abbrev pub format : Format
format = record { uuid_text = λ _. "id"; time_text = λ _. "now" }

-- a run that is ready to publish
abbrev publishing_run : Run
publishing_run = record claimed_run { phase = some publishing }

abbrev pub publishable : Database
publishable = record submitted { runs = publishing_run ∷ [] }

abbrev pub report : Artifact
report = record {
  id = 9;
  run_id = 7;
  title = "rivers";
  kind = "data";
  entry_path = "index.html";
  is_primary = true;
  object_prefix = "artifacts/9";
  manifest_version = 1;
  created_at = 0;
}
