-- ===== src/Cleanup/Removal.antt =====
-- hardDelete of services/control-plane/internal/cleanup/purge.go: lemmas on the rows of a root.
use harness_forge.Base.{◌≡◌, inl, inr, Bool, true, false, not, ◌&&◌, List, arith, Option-cases}
use harness_forge.Base.Tables.{where_rows}
use harness_forge.Base.Keys.{All, All-map, All-test-where_rows}
use harness_forge.Schema.{
  Run, Conversation, Message, Database, failure, ok, refuse_if, ◌>>◌, Result-chain, find_project,
  find_conversation,
}
use harness_forge.Projects.{is_unsettled}
use harness_forge.Conversations.Deletion.{exists-All}
use harness_forge.Cleanup.{
  Root, project_root, conversation_root, owns, is_in, is_protected, lock_root, clear_runs,
  delete_products, delete_runs, delete_messages, delete_conversations, delete_root, hard_delete,
}

not-true : (b : Bool) → not b ≡ true → b ≡ false
not-true b h = ground arith

kept-All {ℓ} :
    {A : Type ℓ} (test : A → Bool) (rows : List A)
    → All (λ a. test a ≡ false) (where_rows (λ a. not (test a)) rows)
kept-All test rows =
    All-map _ _ (where_rows (λ a. not (test a)) rows) (λ a e. not-true (test a) e)
      (All-test-where_rows (λ a. not (test a)) rows)

refused-false : (b : Bool) → refuse_if b failure ≡ ok tt → b ≡ false
refused-false b h = ground arith

lock_root_settled :
    (root : Root) (db : Database) → lock_root root db ≡ ok tt → is_protected root db ≡ false
lock_root_settled (project_root p) db h = elim (Option-cases (find_project p db)) [
  | inl missing ↦ absurd (unfold lock_root in ground arith)
  | inr (x, known) ↦ unfold lock_root in ground arith
]
lock_root_settled (conversation_root k) db h = elim (Option-cases (find_conversation k db)) [
  | inl missing ↦ absurd (unfold lock_root in ground arith)
  | inr (c, known) ↦ elim (Option-cases (find_project c.project_id db)) [
    | inl missing ↦ absurd (unfold lock_root in ground arith)
    | inr (x, known') ↦ unfold lock_root in ground arith
  ]
]

-- a statement that passes its foreign keys
passed {ℓ} :
    {A : Type ℓ} (b : Bool) (value after : A)
    → (refuse_if b failure >> ok value) ≡ ok after
    → after ≡ value
passed b value after h = ground arith

after_root :
    (root : Root) (db db' : Database)
    → delete_root root db ≡ ok db'
    → (db'.runs ≡ db.runs) × (db'.messages ≡ db.messages) × (db'.conversations ≡ db.conversations)
unfolding delete_root
after_root (project_root p) db db' h = ground arith
after_root (conversation_root k) db db' h = ground arith

-- When a hard delete goes through, every run of the root was finalized with an outcome, and no run,
-- message or conversation of the root is left.
pub hard_delete_removes :
    (root : Root) (db db' : Database)
    → hard_delete root db ≡ ok db'
    → All
        (λ (r : Run). (owns root db.conversations r.conversation_id && is_unsettled r) ≡ false)
        db.runs
      × All (λ (r : Run). owns root db.conversations r.conversation_id ≡ false) db'.runs
      × All (λ (m : Message). owns root db.conversations m.conversation_id ≡ false) db'.messages
      × All (λ (c : Conversation). is_in root c ≡ false) db'.conversations
unfolding hard_delete delete_runs delete_messages delete_conversations clear_runs delete_products
hard_delete_removes root db db' h =
    let (_, locked, h₀) = Result-chain (lock_root root db) _ h in
    let start = delete_products root (clear_runs root db) in
    let (db₁, ran, h₁) = Result-chain (delete_runs root start) _ h₀ in
    let (db₂, wrote, h₂) = Result-chain (delete_messages root db₁) _ h₁ in
    let (db₃, talked, h₃) = Result-chain (delete_conversations root db₂) _ h₂ in
    let e₁ = passed _ _ db₁ ran in
    let e₂ = passed _ _ db₂ wrote in
    let e₃ = passed _ _ db₃ talked in
    let (runs, messages, conversations) = after_root root db₃ db' h₃ in
    (
      exists-All _ db.runs (lock_root_settled root db locked),
      rw (runs, e₃, e₂, e₁)
          (kept-All (λ (r : Run). owns root db.conversations r.conversation_id) db.runs),
      rw (messages, e₃, e₂, e₁)
          (kept-All (λ (m : Message). owns root db.conversations m.conversation_id) start.messages),
      rw (conversations, e₃, e₂, e₁) (kept-All (is_in root) db.conversations),
    )
