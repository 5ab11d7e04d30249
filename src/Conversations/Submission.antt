-- ===== src/Conversations/Submission.antt =====
-- SubmitMessage of services/control-plane/internal/conversations/service.go: lemmas on the rows it adds.
use harness_forge.Base.{
  ℕ, String, ◌≡◌, inl, inr, refl, false, none, some, [], ◌∷◌, ◌++◌, arith, Option-cases, same_text,
}
use harness_forge.Base.Text.{trim_space}
use harness_forge.Schema.{
  Run, Conversation, Message, Database, Result-cases, ok, find_conversation, find_run,
}
use harness_forge.Projects.{lock_project}
use harness_forge.RunStore.{create_queued_tx, new_run}
use harness_forge.Conversations.{
  lock_conversation, submit_message, submit_rows, create_message_tx, user_message,
}
use harness_forge.Lifecycle.Steps.Invariant.{IsWellFormed}
use harness_forge.Lifecycle.Steps.Safety.{create-IsWellFormed}

-- What a submission that succeeds found and did.
pub record Submitted (id message_id run_id : ℕ) (content : String) (now : ℕ) (db db' : Database)
    : Type 0 where
  pub conversation : Conversation
  pub known : find_conversation id db ≡ some conversation
  pub open_conversation : conversation.deleted_at ≡ none
  pub open_project : lock_project conversation.project_id db ≡ ok tt
  pub filled : same_text content "" ≡ false
  pub fresh_run : find_run run_id db ≡ none
  pub messages : db'.messages ≡ db.messages ++ user_message message_id id content now ∷ []
  pub runs :
      db'.runs ≡ db.runs ++ new_run run_id id message_id conversation.active_sdk_session_id now ∷ []
  pub run_events : db'.run_events ≡ db.run_events

submit_message-Submitted :
    (id message_id run_id : ℕ) (content : String) (now : ℕ) (db db' : Database) (m : Message)
    (r : Run)
    → submit_message id message_id run_id content now db ≡ ok (m, r, db')
    → Submitted id message_id run_id (trim_space content) now db db'
submit_message-Submitted id message_id run_id content now db db' m r h =
    elim (Option-cases (find_conversation id db)) [
      | inl missing ↦ absurd (unfold submit_message lock_conversation in ground arith)
      | inr (c, known) ↦ elim (Result-cases (lock_project c.project_id db)) [
        | inl (e, refused) ↦ absurd (unfold submit_message lock_conversation in ground arith)
        | inr (tt, live) ↦
            unfold submit_message lock_conversation submit_rows create_message_tx
              create_queued_tx in
            record {
              conversation = c;
              known = known;
              open_conversation = ground arith;
              open_project = live;
              filled = ground arith;
              fresh_run = ground arith;
              messages = ground arith;
              runs = ground arith;
              run_events = ground arith;
            }
      ]
    ]

submit_message-create :
    (id message_id run_id : ℕ) (content : String) (now : ℕ) (db db' : Database) (m : Message)
    (r : Run)
    → submit_message id message_id run_id content now db ≡ ok (m, r, db')
    → (s : Submitted id message_id run_id (trim_space content) now db db')
    → let mid : Database = record db {
      messages = db.messages ++ user_message message_id id (trim_space content) now ∷ [];
    } in
      create_queued_tx run_id id message_id s.conversation.active_sdk_session_id now mid
      ≡ ok (
        new_run run_id id message_id s.conversation.active_sdk_session_id now,
        record mid {
          runs =
              db.runs ++ new_run run_id id message_id s.conversation.active_sdk_session_id now ∷ [];
        },
      )
submit_message-create id message_id run_id content now db db' m r h s =
    let k = s.known in
    let o = s.open_project in
    unfold submit_message lock_conversation submit_rows create_message_tx create_queued_tx in
    ground arith

-- only the runs and their events matter
same_rows :
    (db db' : Database)
    → db'.runs ≡ db.runs
    → db'.run_events ≡ db.run_events
    → IsWellFormed db
    → IsWellFormed db'
same_rows db db' runs events w = record {
  keyed = rw runs w.keyed;
  sequenced = record {
    ascends = rw (runs, events) w.sequenced.ascends;
    owned = rw (runs, events) w.sequenced.owned;
  };
  sound = rw runs w.sound;
  single = rw runs w.single;
}

-- When SubmitMessage succeeds, the conversation and its project were live and the message was not
-- blank, the message and a queued run that it triggers are both there, the run starts from the
-- session of the conversation, and a database that was well formed still is.
pub submit_message_queues :
    (id message_id run_id : ℕ) (content : String) (now : ℕ) (db db' : Database) (m : Message)
    (r : Run)
    → submit_message id message_id run_id content now db ≡ ok (m, r, db')
    → IsWellFormed db
    → Submitted id message_id run_id (trim_space content) now db db' × IsWellFormed db'
submit_message_queues id message_id run_id content now db db' m r h w =
    let s = submit_message-Submitted id message_id run_id content now db db' m r h in
    let mid : Database = record db {
      messages = db.messages ++ user_message message_id id (trim_space content) now ∷ [];
    } in
    let made = submit_message-create id message_id run_id content now db db' m r h s in
    (
      s,
      same_rows _ db' s.runs s.run_events (
          create-IsWellFormed run_id id message_id s.conversation.active_sdk_session_id now mid _ _
            made (same_rows db mid refl refl w)),
    )
