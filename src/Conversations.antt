-- ===== src/Conversations.antt =====
-- services/control-plane/internal/conversations: the conversations of a project and their messages,
-- in store.go, with SubmitMessage and the checks on texts of service.go.
pub mod Submission
pub mod Deletion
use harness_forge.Base.{
  ℕ, String, Bool, true, false, not, ◌&&◌, ◌||◌, Option, none, some, List, [], ◌∷◌, ◌++◌, ltb, leb,
  ◌==◌, if◌then◌else◌, is_some, same_text,
}
use harness_forge.Base.Tables.{find, update, exists, where_rows, order_by}
use harness_forge.Base.Text.{trim_space, fields_of, join_words, take_text}
use harness_forge.Schema.{
  Run, Project, Conversation, Message, user, Database, not_found, conflict, invalid, failure,
  Result, ok, err, found, refuse_if, ◌>>=◌, ◌>>◌, find_project, find_conversation,
  update_conversation,
}
use harness_forge.RunStore.{create_queued_tx}
use harness_forge.Projects.{lock_project, is_unsettled}

-- CreateConversation
unfoldable pub create_conversation :
    ℕ → ℕ → String → ℕ → Database → Result (Conversation × Database)
create_conversation id project title now db =
    let c : Conversation = record {
      id = id;
      project_id = project;
      title = trim_space title;
      active_sdk_session_id = none;
      created_at = now;
      updated_at = now;
      deleted_at = none;
    } in
    do
      lock_project project db
      refuse_if (is_some (find_conversation id db)) failure
      ok (c, record db { conversations = db.conversations ++ c ∷ [] })

abbrev is_live_in : ℕ → Conversation → Bool
is_live_in project c = c.project_id == project && not (is_some c.deleted_at)

-- ORDER BY updated_at DESC,id
abbrev recent_first : Conversation → Conversation → Bool
recent_first a b = ltb b.updated_at a.updated_at || (a.updated_at == b.updated_at && leb a.id b.id)

-- ListConversations
unfoldable list_conversations : ℕ → Database → Result (List Conversation)
list_conversations project db = do
  p ← found (find_project project db)
  refuse_if (is_some p.deleted_at) not_found
  ok (order_by recent_first (where_rows (is_live_in project) db.conversations))

-- ReadConversation
unfoldable read_conversation : ℕ → Database → Result Conversation
read_conversation id db = do
  c ← found (find_conversation id db)
  p ← found (find_project c.project_id db)
  refuse_if (is_some c.deleted_at || is_some p.deleted_at) not_found
  ok c

-- lockConversation
unfoldable pub lock_conversation : ℕ → Database → Result Conversation
lock_conversation id db = do c ← found (find_conversation id db); lock_project c.project_id db; ok c

unfoldable set_title : String → ℕ → Conversation → Conversation
set_title title now c = record c { title = title; updated_at = now }

-- RenameConversation, of the service and the store
unfoldable rename_conversation : ℕ → String → ℕ → Database → Result (Conversation × Database)
unfolding set_title
rename_conversation id title now db = do
  refuse_if (same_text (trim_space title) "") invalid
  c ← lock_conversation id db
  refuse_if (is_some c.deleted_at) conflict
  ok (
    set_title (trim_space title) now c,
    update_conversation id (set_title (trim_space title) now) db,
  )

abbrev message_order : Message → Message → Bool
message_order a b = ltb a.created_at b.created_at || (a.created_at == b.created_at && leb a.id b.id)

-- ListMessages
unfoldable list_messages : ℕ → Database → Result (List Message)
unfolding read_conversation
list_messages id db = do
  read_conversation id db
  ok (order_by message_order (where_rows (λ (m : Message). m.conversation_id == id) db.messages))

unfoldable pub user_message : ℕ → ℕ → String → ℕ → Message
user_message id conversation content now = record {
  id = id;
  conversation_id = conversation;
  role = user;
  content = content;
  created_at = now;
  run_id = none;
  runtime_sequence = none;
}

-- createMessageTx; a primary key that is taken is an error
unfoldable pub create_message_tx : Message → Database → Result (Message × Database)
create_message_tx m db = do
  refuse_if (is_some (find (λ (x : Message). x.id) m.id db.messages)) failure
  ok (m, record db { messages = db.messages ++ m ∷ [] })

-- messageTitle
unfoldable message_title : String → String
message_title content = take_text 40 (join_words (fields_of content))

abbrev title_after : Bool → Conversation → String → String
title_after is_first c content =
    if is_first && same_text c.title "" then message_title content else c.title

-- the statements of SubmitMessage behind the checks on the conversation
unfoldable pub submit_rows :
    ℕ → Conversation → ℕ → ℕ → String → ℕ → Database → Result (Message × Run × Database)
unfolding create_message_tx user_message set_title message_title
submit_rows id c message_id run_id content now db = do
  let is_first = not (exists (λ (m : Message). m.conversation_id == id) db.messages)
  (m, db₁) ← create_message_tx (user_message message_id id content now) db
  (r, db₂) ← create_queued_tx run_id id message_id c.active_sdk_session_id now db₁
  ok (m, r, update_conversation id (set_title (title_after is_first c content) now) db₂)

-- SubmitMessage; `message_id` and `run_id` are the new UUIDs
unfoldable pub submit_message :
    ℕ → ℕ → ℕ → String → ℕ → Database → Result (Message × Run × Database)
unfolding submit_rows lock_conversation
submit_message id message_id run_id content now db = do
  refuse_if (same_text (trim_space content) "") invalid
  c ← lock_conversation id db
  refuse_if (is_some c.deleted_at) conflict
  submit_rows id c message_id run_id (trim_space content) now db

abbrev pub protects_conversation : ℕ → Run → Bool
protects_conversation id r = r.conversation_id == id && is_unsettled r

unfoldable pub mark_deleted : ℕ → Conversation → Conversation
mark_deleted now c = record c { deleted_at = some now; updated_at = now }

-- the transaction of DeleteConversation
unfoldable pub delete_tx : ℕ → ℕ → Database → Result Database
unfolding mark_deleted
delete_tx id now db = do
  c ← lock_conversation id db
  if is_some c.deleted_at then ok db else do
    refuse_if (exists (protects_conversation id) db.runs) conflict
    ok (update_conversation id (mark_deleted now) db)

-- DeleteConversation; `others` is what happens between its first read and its transaction
unfoldable delete_conversation : (Database → Database) → ℕ → ℕ → Database → Result Database
unfolding delete_tx
delete_conversation others id now db = do
  c ← found (find_conversation id db)
  if is_some c.deleted_at then ok (others db) else delete_tx id now (others db)
