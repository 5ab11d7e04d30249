-- ===== src/Projects/Deletion.antt =====
-- DeleteProject of services/control-plane/internal/projects/store.go: lemmas on a project that is deleted.
use harness_forge.Base.{
  ℕ, String, ◌≡◌, ◌⊎◌, inl, inr, refl, false, some, arith, Option-cases, Bool-cases, ==-refl,
  is_some, same_text,
}
use harness_forge.Base.Tables.{exists, find-update}
use harness_forge.Base.Text.{trim_space}
use harness_forge.Base.Keys.{All}
use harness_forge.Schema.{
  Run, Conversation, Project, InputFile, Database, conflict, invalid, Result, ok, err,
  find_conversation, find_project,
}
use harness_forge.Projects.{lock_project, protects, save_input, delete_project, mark_deleted}
use harness_forge.Conversations.{create_conversation, lock_conversation, submit_message}
use harness_forge.Conversations.Deletion.{exists-All}

-- A write that answers with the conflict.
abbrev pub IsRefused {ℓ} : {A : Type ℓ} → Result A → Type ℓ
IsRefused answer = answer ≡ err conflict

delete_project-lock :
    (id now : ℕ) (db db' : Database)
    → delete_project id now db ≡ ok db'
    → lock_project id db' ≡ err conflict
unfolding delete_project lock_project mark_deleted
delete_project-lock id now db db' h = elim (Option-cases (find_project id db)) [
  | inl missing ↦ absurd (ground arith)
  | inr (p, known) ↦ elim (Bool-cases (is_some p.deleted_at)) [
    | inl t ↦ ground arith
    | inr f ↦ ground (
      arith,
      find-update (λ (x : Project). x.id) id id (mark_deleted now) db.projects (λ x. refl),
      ==-refl id,
    )
  ]
]

delete_project_settled :
    (id now : ℕ) (db db' : Database)
    → delete_project id now db ≡ ok db'
    → (db' ≡ db) ⊎ All (λ (r : Run). protects id db r ≡ false) db.runs
delete_project_settled id now db db' h = elim (Bool-cases (exists (protects id db) db.runs)) [
  | inr f ↦ inr (exists-All (protects id db) db.runs f)
  | inl t ↦ elim (Option-cases (find_project id db)) [
    | inl missing ↦ absurd (unfold delete_project in ground arith)
    | inr (p, known) ↦ inl (unfold delete_project in ground arith)
  ]
]

-- When DeleteProject commits, each run of the project is finalized with an outcome unless the call
-- changed nothing; and of the writes that follow, a new conversation, an input file and a message to
-- any conversation of the project are refused as conflicts, a blank message as invalid.
pub delete_project_closes :
    (id now : ℕ) (db db' : Database)
    → delete_project id now db ≡ ok db'
    → ((db' ≡ db) ⊎ All (λ (r : Run). protects id db r ≡ false) db.runs)
      × ((c : ℕ) (title : String) (later : ℕ)
          → IsRefused (create_conversation c id title later db'))
      × ((input : InputFile) (later : ℕ)
          → input.project_id ≡ id
          → IsRefused (save_input input later db'))
      × ((c : Conversation) (m r : ℕ) (content : String) (later : ℕ)
          → find_conversation c.id db' ≡ some c
          → c.project_id ≡ id
          → IsRefused (submit_message c.id m r content later db')
            ⊎ (submit_message c.id m r content later db' ≡ err invalid))
delete_project_closes id now db db' h =
    let closed = delete_project-lock id now db db' h in
    (
      delete_project_settled id now db db' h,
      λ c title later. unfold create_conversation in rw closed refl,
      λ input later here. unfold save_input in rw (here, closed) refl,
      λ c m r content later known here. elim (Bool-cases (same_text (trim_space content) "")) [
        | inl t ↦ inr (unfold submit_message in rw t refl)
        | inr f ↦ inl (unfold submit_message lock_conversation in rw (f, known, here, closed) refl)
      ],
    )
