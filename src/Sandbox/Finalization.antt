-- ===== src/Sandbox/Finalization.antt =====
-- Finalize of services/control-plane/internal/sandbox/fake.go: lemmas on decisions and sessions.
use harness_forge.Base.{
  ℕ, String, ◌≡◌, ◌⊎◌, inl, inr, refl, ◌∙◌, true, false, none, some, List, [], ◌∷◌, ◌++◌, arith,
  ==-refl, Option-cases, Bool-cases, if◌then◌else◌, same_text, eq_refl,
}
use harness_forge.Base.Tables.{exists, where_rows, find-update}
use harness_forge.Sandbox.{
  Decision, commit, abort, same_decision, awaiting_finalize, Execution, Provider, answer, fault,
  conflict, find_execution, update_execution, has_session, drop_session, settle_session, finalize,
  decide,
}

dropped :
    (s : String) (sessions : List String) → exists (same_text s) (drop_session s sessions) ≡ false
unfolding exists where_rows
dropped s [] = refl
dropped s (t ∷ rest) = elim (Bool-cases (same_text s t)) [
  | inl e ↦ rw e (dropped s rest)
  | inr e ↦ rw e (rw e (dropped s rest))
]

added : (s : String) (sessions : List String) → exists (same_text s) (sessions ++ s ∷ []) ≡ true
unfolding exists
added s [] = ground (arith, eq_refl s)
added s (t ∷ rest) = ground (arith, added s rest)

session_settled :
    (d : Decision) (s : String) (sessions : List String)
    → exists (same_text s) (settle_session d (some s) sessions) ≡ same_decision d commit
session_settled commit s sessions = added s (drop_session s sessions)
session_settled abort s sessions = dropped s sessions

-- What a finalization of `id` that succeeds found, and what it left.
pub record Finalized (id : ℕ) (d : Decision) (p p' : Provider) : Type 0 where
  pub was : Execution
  pub known : find_execution id p ≡ some was
  pub now : Execution
  pub known' : find_execution id p' ≡ some now
  pub decided : now.decision ≡ some d
  pub first_time :
      ((was.decision ≡ some d) × (p' ≡ p))
      ⊎ ((was.decision ≡ none)
          × (was.stage ≡ awaiting_finalize)
          × ((s : String) → was.candidate ≡ some s → has_session s p' ≡ same_decision d commit))

same_decision→eq : (a b : Decision) → same_decision a b ≡ true → a ≡ b
same_decision→eq a b h = ground arith

finalize-Finalized :
    (id : ℕ) (d : Decision) (p p' : Provider)
    → finalize id (some d) p ≡ answer p'
    → Finalized id d p p'
finalize-Finalized id d p p' h = elim (Option-cases (find_execution id p)) [
  | inl missing ↦ absurd (unfold finalize in ground arith)
  | inr (e, known) ↦ elim (Option-cases e.decision) [
    | inr (made, e') ↦
        let same : p' ≡ p = unfold finalize in ground arith in
        let agreed : made ≡ d = same_decision→eq made d (unfold finalize in ground arith) in
        rw same (record {
          was = e;
          known = known;
          now = e;
          known' = known;
          decided = e' ∙ rw agreed;
          first_time = inl (e' ∙ rw agreed, refl);
        })
    | inl e' ↦
        let changed : p' ≡ record (update_execution id (decide d) p) {
          sessions = settle_session d e.candidate p.sessions;
        } =
          unfold finalize in ground arith in
        let awaits : e.stage ≡ awaiting_finalize = unfold finalize in ground arith in
        rw changed (record {
          was = e;
          known = known;
          now = decide d e;
          known' =
              find-update (λ (x : Execution). x.run_id) id id (decide d) p.executions
                (λ x. unfold decide in refl)
              ∙ ground (arith, ==-refl id, known);
          decided = unfold decide in refl;
          first_time = inr (e', awaits, λ s c. rw c (session_settled d s p.sessions));
        })
  ]
]

-- A finalization that succeeds found an execution that awaited it, or the same decision made before,
-- which it leaves alone. It records the decision, keeps the candidate session only on a commit, and
-- from then on the same decision succeeds without a change and the other one is a conflict.
pub finalize_decides :
    (id : ℕ) (d : Decision) (p p' : Provider)
    → finalize id (some d) p ≡ answer p'
    → Finalized id d p p'
      × ((d' : Decision)
          → finalize id (some d') p' ≡ (if same_decision d d' then answer p' else fault conflict))
finalize_decides id d p p' h =
    let f = finalize-Finalized id d p p' h in
    let known = f.known' in let decided = f.decided in (f, λ d'. unfold finalize in ground arith)
