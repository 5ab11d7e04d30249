-- ===== src/Lifecycle/Moves/Commit.antt =====
-- Lemmas on the transactions that record Runtime events, publish products and end a run.
use harness_forge.Base.{
  ℕ, String, ◌≡◌, ◌⊎◌, inl, inr, refl, true, none, some, List, [], ◌∷◌, ◌++◌, arith, Option-cases,
  Bool-cases,
}
use harness_forge.Schema.{
  Status, running, succeeded, same_status, publishing, Run, Artifact, Database, ok, Result-chain,
  Result-cases, find_run, find_project, find_conversation, update_run, update_conversation,
}
use harness_forge.State.{terminal}
use harness_forge.RunChanges.{log_event}
use harness_forge.RunCommit.{
  Format, insert_artifacts, promote, succeed, commit_products, products, log_artifacts,
  artifact_event, announce, stamp, terminal_event, acknowledge_finalized,
}
use harness_forge.Lifecycle.{Stays, Move, succeeds, ends, RowStep}
use harness_forge.Lifecycle.Rows.{
  RowStep-update_known, RowStep-then, RowStep-Stays-then, RowStep-refl, RowStep-Stays_change,
  RowStep-from, RowStep-log_event,
}

-- InsertTx leaves the runs alone
pub runs-insert_artifacts :
    (records : List Artifact) (now : ℕ) (db db' : Database)
    → insert_artifacts records now db ≡ ok db'
    → (db'.runs ≡ db.runs)
      × (db'.run_events ≡ db.run_events)
      × (db'.conversations ≡ db.conversations)
unfolding insert_artifacts
runs-insert_artifacts [] now db db' h = ground arith
runs-insert_artifacts (a ∷ rest) now db db' h = ground (
  arith,
  runs-insert_artifacts rest now
      (record db { artifacts = db.artifacts ++ record a { created_at = now } ∷ [] }) db',
)

-- CommitProducts
commit_products_cases :
    (id project : ℕ) (candidate : String) (records : List Artifact) (now : ℕ) (db db' : Database)
    (r : Run)
    → find_run id db ≡ some r
    → commit_products id project candidate records now db ≡ ok db'
    → (r.status ≡ running)
      × (r.phase ≡ some publishing)
      × (r.finalized_at ≡ none)
      × ((c : ℕ) × (mid : Database) × (insert_artifacts records now db ≡ ok mid)
          × (db'
              ≡ update_run id
                  (succeed candidate now)
                  (update_conversation c (promote candidate now) mid)))
commit_products_cases id project candidate records now db db' r known h =
    elim (Option-cases (find_conversation r.conversation_id db)) [
      | inl missing ↦ absurd (unfold commit_products in ground arith)
      | inr (c, owner) ↦
          unfold commit_products in
          elim (Result-cases (insert_artifacts records now db)) [
            | inl (e, refused) ↦ absurd (ground arith)
            | inr (mid, inserted) ↦
                (ground arith, ground arith, ground arith, (c.id, mid, inserted, ground arith))
          ]
    ]

pub commit_products-RowStep :
    (id project : ℕ) (candidate : String) (records : List Artifact) (now : ℕ) (db db' : Database)
    → commit_products id project candidate records now db ≡ ok db'
    → RowStep Move id db db'
unfolding succeed
commit_products-RowStep id project candidate records now db db' h =
    elim (Option-cases (find_run id db)) [
      | inl missing ↦ elim (Option-cases (find_project project db)) [
        | inl absent' ↦ absurd (unfold commit_products in ground arith)
        | inr (p, e) ↦ absurd (unfold commit_products in ground arith)
      ]
      | inr (r, known) ↦
          let (open', phase, open'', (c, mid, inserted, changed)) =
            commit_products_cases id project candidate records now db db' r known h in
          let before = update_conversation c (promote candidate now) mid in
          let same : before.runs ≡ db.runs =
            (runs-insert_artifacts records now db mid inserted).0 in
          rw changed (
            RowStep-from id db before _ same (runs-insert_artifacts records now db mid inserted).1 (
              RowStep-update_known Move id (succeed candidate now) before r (λ x. refl) (λ x. refl)
                (rw same known) (succeeds open' phase open'' refl refl refl)))
    ]

ok_injective : (a b : Database) → ok a ≡ ok b → b ≡ a
ok_injective a b h = cc

-- AcknowledgeFinalized
RowStep-log_artifacts :
    (format : Format) (id now : ℕ) (rows : List Artifact) (db db' : Database)
    → log_artifacts format id now rows db ≡ ok db'
    → RowStep Stays id db db'
unfolding log_artifacts
RowStep-log_artifacts format id now [] db db' h = rw (ok_injective db db' h) (RowStep-refl id db)
RowStep-log_artifacts format id now (a ∷ rest) db db' h =
    let (mid, logged, others) =
      Result-chain (log_event (artifact_event format id now a) db)
        (log_artifacts format id now rest) h in
    RowStep-Stays-then id db mid db'
      (unfold artifact_event in RowStep-log_event (artifact_event format id now a) db mid logged)
      (RowStep-log_artifacts format id now rest mid db' others)

announce-RowStep :
    (format : Format) (id : ℕ) (status : Status) (now : ℕ) (db db' : Database)
    → announce format id status now db ≡ ok db'
    → RowStep Stays id db db'
unfolding announce
announce-RowStep format id status now db db' h = elim (Bool-cases (same_status status succeeded)) [
  | inl yes' ↦
      let (mid, logged, last) =
        Result-chain (log_artifacts format id now (products id db) db)
          (log_event (terminal_event id status now)) (rw yes' at h) in
      RowStep-Stays-then id db mid db'
        (RowStep-log_artifacts format id now (products id db) db mid logged)
        (RowStep-log_event (terminal_event id status now) mid db' last)
  | inr no' ↦ RowStep-log_event (terminal_event id status now) db db' (rw no' at h)
]

acknowledge_cases :
    (format : Format) (id now : ℕ) (db db' : Database) (r : Run)
    → find_run id db ≡ some r
    → acknowledge_finalized format id now db ≡ ok db'
    → (terminal r.status ≡ true)
      × ((db' ≡ db)
          ⊎ ((r.finalized_at ≡ none)
              × (announce format id r.status now (update_run id (stamp now) db) ≡ ok db')))
unfolding acknowledge_finalized
acknowledge_cases format id now db db' r known h = ground arith

pub acknowledge_finalized-RowStep :
    (format : Format) (id now : ℕ) (db db' : Database)
    → acknowledge_finalized format id now db ≡ ok db'
    → RowStep Move id db db'
unfolding stamp
acknowledge_finalized-RowStep format id now db db' h = elim (Option-cases (find_run id db)) [
  | inl missing ↦ absurd (unfold acknowledge_finalized in ground arith)
  | inr (r, known) ↦
      let (over, outcome) = acknowledge_cases format id now db db' r known h in
      elim outcome [
        | inl same ↦ rw same (RowStep-Stays_change id db db (RowStep-refl id db))
        | inr (open', announced) ↦
            RowStep-then id db (update_run id (stamp now) db) db'
              (RowStep-update_known Move id (stamp now) db r (λ x. refl) (λ x. refl) known
                (ends over open' refl refl refl))
              (announce-RowStep format id r.status now (update_run id (stamp now) db) db' announced)
      ]
]
