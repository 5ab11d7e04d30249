-- ===== src/Schema.antt =====
-- The rows of the database: services/control-plane/migrations, with the model structs of
-- internal/runs/model.go, internal/runs/events.go, internal/conversations/model.go,
-- internal/projects/model.go and internal/artifacts/store.go. An identifier is a number, and 0 is
-- the nil UUID; a time is a number, and 0 is Go's zero time; a nullable column is an option.
use harness_forge.Base.{
  ℕ, ℤ, String, ◌≡◌, refl, ◌⊎◌, inl, inr, Bool, true, false, Option, none, some, List, [], ◌==◌,
  holds, arith,
}
use harness_forge.Base.Json.{Json, RawMessage}
use harness_forge.Base.Tables.{find, update}

pub data Status : Type 0 where
  queued running succeeded failed cancelled interrupted : Status

pub data Phase : Type 0 where
  preparing agent publishing : Phase

-- Status and Phase are strings in Go; these are their texts, which a CHECK limits to six and three.
abbrev pub status_text : Status → String
status_text queued = "queued"
status_text running = "running"
status_text succeeded = "succeeded"
status_text failed = "failed"
status_text cancelled = "cancelled"
status_text interrupted = "interrupted"

abbrev pub phase_text : Phase → String
phase_text preparing = "preparing"
phase_text agent = "agent"
phase_text publishing = "publishing"

abbrev status_code : Status → ℕ
status_code queued = 0
status_code running = 1
status_code succeeded = 2
status_code failed = 3
status_code cancelled = 4
status_code interrupted = 5

abbrev phase_code : Phase → ℕ
phase_code preparing = 0
phase_code agent = 1
phase_code publishing = 2

-- == on statuses and on phases
abbrev pub same_status : Status → Status → Bool
same_status a b = status_code a == status_code b

abbrev pub same_phase : Phase → Phase → Bool
same_phase a b = phase_code a == phase_code b

abbrev pub is_phase : Phase → Option Phase → Bool
is_phase p = holds (same_phase p)

-- A row of `runs`: the struct Run, with the column next_event_sequence, which only SQL reads.
pub record Run : Type 0 where
  pub id : ℕ
  pub conversation_id : ℕ
  pub trigger_message_id : ℕ
  pub status : Status
  pub phase : Option Phase
  pub finalized_at : Option ℕ
  pub source_sdk_session_id : Option String
  pub candidate_sdk_session_id : Option String
  pub sandbox_provider : Option String
  pub sandbox_ref : Option String
  pub error : Option Json
  pub created_at : ℕ
  pub updated_at : ℕ
  pub next_event_sequence : ℕ

pub record Event : Type 0 where
  pub run_id : ℕ
  pub sequence : ℕ
  pub runtime_sequence : Option ℤ
  pub dedupe_key : Option String
  pub kind : String
  pub payload : RawMessage
  pub occurred_at : ℕ

pub record Project : Type 0 where
  pub id : ℕ
  pub name : String
  pub profile_id : String
  pub profile_version : String
  pub created_at : ℕ
  pub updated_at : ℕ
  pub deleted_at : Option ℕ

pub record InputFile : Type 0 where
  pub id : ℕ
  pub project_id : ℕ
  pub display_name : String
  pub media_type : String
  pub size_bytes : ℕ
  pub sha256_digest : String
  pub object_key : String
  pub created_at : ℕ

pub record Conversation : Type 0 where
  pub id : ℕ
  pub project_id : ℕ
  pub title : String
  pub active_sdk_session_id : Option String
  pub created_at : ℕ
  pub updated_at : ℕ
  pub deleted_at : Option ℕ

pub data Role : Type 0 where
  user assistant : Role

pub record Message : Type 0 where
  pub id : ℕ
  pub conversation_id : ℕ
  pub role : Role
  pub content : String
  pub created_at : ℕ
  pub run_id : Option ℕ
  pub runtime_sequence : Option ℤ

pub record Artifact : Type 0 where
  pub id : ℕ
  pub run_id : ℕ
  pub title : String
  pub kind : String
  pub entry_path : String
  pub object_prefix : String
  pub is_primary : Bool
  pub manifest_version : ℕ
  pub created_at : ℕ

pub record Database : Type 0 where
  pub projects : List Project
  pub input_files : List InputFile
  pub conversations : List Conversation
  pub messages : List Message
  pub runs : List Run
  pub run_events : List Event
  pub artifacts : List Artifact

-- The errors that callers tell apart. `failure` is any other: a statement or a connection failed.
pub data Error : Type 0 where
  not_found conflict unavailable consistency invalid failure : Error

pub data Result {ℓ} (A : Type ℓ) : Type ℓ where
  ok : A → Result A
  err : Error → Result A

infixl 5 ◌>>=◌ ◌>>◌
abbrev pub ◌>>=◌ {ℓ κ} :
    {Row : Type ℓ} {Next : Type κ} → Result Row → (Row → Result Next) → Result Next
err e >>= continue = err e
ok row >>= continue = continue row

abbrev pub ◌>>◌ {ℓ κ} : {Row : Type ℓ} {Next : Type κ} → Result Row → Result Next → Result Next
first_statement >> second = first_statement >>= λ _. second

-- A statement answers with an error or with a value.
pub Result-cases {ℓ} :
    {A : Type ℓ} (m : Result A) → ((e : Error) × (m ≡ err e)) ⊎ ((a : A) × (m ≡ ok a))
Result-cases (ok a) = inr (a, refl)
Result-cases (err e) = inl (e, refl)

-- When a chain of statements succeeds, its first statement did, and so did the others after it.
pub Result-chain {ℓ κ} :
    {Row : Type ℓ} {Next : Type κ} (statement : Result Row) (continue : Row → Result Next)
    {last : Next}
    → (statement >>= continue) ≡ ok last
    → (mid : Row) × (statement ≡ ok mid) × (continue mid ≡ ok last)
Result-chain statement continue h = elim (Result-cases statement) [
  | inr (mid, passed) ↦ (mid, passed, rw passed at h)
  | inl (e, refused) ↦ absurd (ground (arith, rw refused at h))
]

-- scan: a query for one row that finds none
abbrev pub found {ℓ} : {A : Type ℓ} → Option A → Result A
found none = err not_found
found (some a) = ok a

abbrev pub refuse_if : Bool → Error → Result (Unit {0})
refuse_if true e = err e
refuse_if false e = ok tt

abbrev pub empty_database : Database
empty_database = record {
  projects = [];
  input_files = [];
  conversations = [];
  messages = [];
  runs = [];
  run_events = [];
  artifacts = [];
}

-- The status, when an equality test on its code has passed.
same_status→eq : (a b : Status) → same_status a b ≡ true → a ≡ b
same_status→eq a b h = ground arith

-- SELECT ... FROM runs WHERE id=$1, and so for the other tables
abbrev pub find_run : ℕ → Database → Option Run
find_run id db = find (λ (r : Run). r.id) id db.runs

abbrev pub find_conversation : ℕ → Database → Option Conversation
find_conversation id db = find (λ (c : Conversation). c.id) id db.conversations

abbrev pub find_project : ℕ → Database → Option Project
find_project id db = find (λ (p : Project). p.id) id db.projects

-- UPDATE runs SET ... WHERE id=$1, and so for conversations
abbrev pub update_run : ℕ → (Run → Run) → Database → Database
update_run id f db = record db { runs = update (λ (r : Run). r.id) id f db.runs }

abbrev pub update_conversation : ℕ → (Conversation → Conversation) → Database → Database
update_conversation id f db = record db {
  conversations = update (λ (c : Conversation). c.id) id f db.conversations;
}
