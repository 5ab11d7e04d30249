-- ===== src/RunCommit/Promotion.antt =====
-- CommitProducts of services/control-plane/internal/runs/coordinator_store.go: lemmas on its guards.
use harness_forge.Base.{
  ℕ, String, ◌≡◌, inl, inr, refl, true, Option, none, some, List, arith, Option-cases, eq_iff,
}
use harness_forge.Schema.{
  running, publishing, Run, Conversation, Artifact, Database, ok, find_run, find_conversation,
}
use harness_forge.RunCommit.{same_session, commit_products}

-- A session comparison that passes is an equality.
same_session→eq : (a b : Option String) → same_session a b ≡ true → a ≡ b
same_session→eq none none h = refl
same_session→eq (some a) (some b) h = ground (arith, eq_iff a b)
same_session→eq none (some b) h = cc
same_session→eq (some a) none h = cc

-- What must hold of the database when a commit of `id` goes through.
pub record Committable (id project : ℕ) (db : Database) : Type 0 where
  pub run : Run
  pub owner : Conversation
  pub known : find_run id db ≡ some run
  pub home : find_conversation run.conversation_id db ≡ some owner
  pub belongs : owner.project_id ≡ project
  pub open_owner : owner.deleted_at ≡ none
  pub status : run.status ≡ running
  pub phase : run.phase ≡ some publishing
  pub unended : run.finalized_at ≡ none
  pub unmoved : owner.active_sdk_session_id ≡ run.source_sdk_session_id

pub commit_products-Committable :
    (id project : ℕ) (candidate : String) (records : List Artifact) (now : ℕ) (db db' : Database)
    → commit_products id project candidate records now db ≡ ok db'
    → Committable id project db
commit_products-Committable id project candidate records now db db' h =
    elim (Option-cases (find_run id db)) [
      | inl missing ↦ absurd (unfold commit_products in ground arith)
      | inr (r, known) ↦ elim (Option-cases (find_conversation r.conversation_id db)) [
        | inl missing ↦ absurd (unfold commit_products in ground arith)
        | inr (c, home) ↦
            unfold commit_products in
            record {
              run = r;
              owner = c;
              known = known;
              home = home;
              belongs = ground arith;
              open_owner = ground arith;
              status = ground arith;
              phase = ground arith;
              unended = ground arith;
              unmoved =
                  same_session→eq c.active_sdk_session_id r.source_sdk_session_id (ground arith);
            }
      ]
    ]
