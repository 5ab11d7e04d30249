-- ===== src/Conversations/Deletion.antt =====
-- DeleteConversation and SubmitMessage of services/control-plane/internal/conversations: lemmas on a
-- conversation that is deleted.
use harness_forge.Base.{
  ℕ, String, ◌≡◌, ◌⊎◌, inl, inr, refl, ◌∙◌, Bool, true, false, some, List, [], ◌∷◌, arith,
  Option-cases, Bool-cases, ==-refl, is_some, same_text,
}
use harness_forge.Base.Tables.{exists, find-update}
use harness_forge.Base.Text.{trim_space}
use harness_forge.Base.Keys.{All}
use harness_forge.Schema.{
  Run, Conversation, Database, conflict, invalid, Result-cases, ok, err, find_conversation,
  update_conversation,
}
use harness_forge.Projects.{lock_project}
use harness_forge.Conversations.{
  delete_tx, lock_conversation, mark_deleted, protects_conversation, submit_message,
}

pub exists-All {ℓ} :
    {A : Type ℓ} (test : A → Bool) (rows : List A)
    → exists test rows ≡ false
    → All (λ a. test a ≡ false) rows
unfolding exists
exists-All test [] h = tt
exists-All test (x ∷ rows) h = (ground arith, exists-All test rows (ground arith))

find-mark_deleted :
    (id now : ℕ) (db : Database) (c : Conversation)
    → find_conversation id db ≡ some c
    → find_conversation id (update_conversation id (mark_deleted now) db)
      ≡ some (mark_deleted now c)
unfolding mark_deleted
find-mark_deleted id now db c known =
    find-update (λ (x : Conversation). x.id) id id (mark_deleted now) db.conversations (λ x. refl)
    ∙ ground (arith, ==-refl id, known)

-- A conversation that is deleted, in a live project, refuses a message.
submit_refused :
    (id m r : ℕ) (content : String) (now : ℕ) (db : Database) (c : Conversation)
    → find_conversation id db ≡ some c
    → is_some c.deleted_at ≡ true
    → lock_project c.project_id db ≡ ok tt
    → same_text (trim_space content) "" ≡ false
    → submit_message id m r content now db ≡ err conflict
unfolding submit_message lock_conversation
submit_refused id m r content now db c known gone live filled = ground arith

-- What a deletion of the conversation `id` leaves.
pub record Closed (id : ℕ) (db db' : Database) : Type 0 where
  pub was : Conversation
  pub is : Conversation
  pub known : find_conversation id db ≡ some was
  pub known' : find_conversation id db' ≡ some is
  pub gone : is_some is.deleted_at ≡ true
  pub live : lock_project is.project_id db' ≡ ok tt
  pub settled :
      (is_some was.deleted_at ≡ true)
      ⊎ All (λ (r : Run). protects_conversation id r ≡ false) db'.runs

delete_tx-Closed :
    (id now : ℕ) (db db' : Database) → delete_tx id now db ≡ ok db' → Closed id db db'
delete_tx-Closed id now db db' h = elim (Option-cases (find_conversation id db)) [
  | inl missing ↦ absurd (unfold delete_tx lock_conversation in ground arith)
  | inr (c, known) ↦ elim (Result-cases (lock_project c.project_id db)) [
    | inl (e, refused) ↦ absurd (unfold delete_tx lock_conversation in ground arith)
    | inr (tt, live) ↦ elim (Bool-cases (is_some c.deleted_at)) [
      | inl t ↦
          let same : db' ≡ db = unfold delete_tx lock_conversation in ground arith in
          rw same (record {
            was = c;
            is = c;
            known = known;
            known' = known;
            gone = t;
            live = live;
            settled = inl t;
          })
      | inr f ↦
          let idle : exists (protects_conversation id) db.runs ≡ false =
            unfold delete_tx lock_conversation in ground arith in
          let changed : db' ≡ update_conversation id (mark_deleted now) db =
            unfold delete_tx lock_conversation in ground arith in
          rw changed (record {
            was = c;
            is = mark_deleted now c;
            known = known;
            known' = find-mark_deleted id now db c known;
            gone = unfold mark_deleted in refl;
            live = unfold mark_deleted lock_project in (unfold lock_project in live);
            settled = inr (exists-All (protects_conversation id) db.runs idle);
          })
    ]
  ]
]

-- When the transaction of DeleteConversation commits, the conversation is marked deleted, each of its
-- runs is finalized with an outcome unless it was deleted before, and every message that is
-- submitted to it next is refused as a conflict, or as invalid when it is blank.
pub delete_tx_closes :
    (id now : ℕ) (db db' : Database) (m r : ℕ) (content : String) (later : ℕ)
    → delete_tx id now db ≡ ok db'
    → Closed id db db'
      × ((submit_message id m r content later db' ≡ err conflict)
          ⊎ (submit_message id m r content later db' ≡ err invalid))
delete_tx_closes id now db db' m r content later h =
    let c = delete_tx-Closed id now db db' h in
    (
      c,
      elim (Bool-cases (same_text (trim_space content) "")) [
        | inl t ↦ inr (unfold submit_message in rw t refl)
        | inr f ↦ inl (submit_refused id m r content later db' c.is c.known' c.gone c.live f)
      ],
    )
