-- ===== src/Sandbox/Exclusion.antt =====
-- Execute of services/control-plane/internal/sandbox/fake.go: lemmas on the executions of a provider.
use harness_forge.Base.{
  ℕ, String, ◌≡◌, inl, inr, sym, ◌∙◌, true, false, Option, none, some, [], ◌∷◌, ◌++◌, arith, ==_iff,
  ==-refl, Option-cases,
}
use harness_forge.Base.Tables.{find, exists, find-append, exists-find}
use harness_forge.Sandbox.{
  Execution, Provider, answer, find_execution, undecided, begin_execute, new_execution, Paths,
  leased, find_lease,
}

-- at most one execution has no decision
abbrev pub IsExclusive : Provider → Type 0
IsExclusive p =
    (i j : ℕ) (a b : Execution)
    → find_execution i p ≡ some a
    → find_execution j p ≡ some b
    → undecided a ≡ true
    → undecided b ≡ true
    → i ≡ j

begin_execute_cases :
    (id : ℕ) (paths : Paths) (source : Option String) (p p' : Provider)
    → begin_execute id paths source p ≡ answer p'
    → (find_execution id p ≡ none)
      × (leased paths (find_lease id p) ≡ true)
      × (exists undecided p.executions ≡ false)
      × (p' ≡ record p { executions = p.executions ++ new_execution id ∷ [] })
begin_execute_cases id paths source p p' h = elim (Option-cases (find_execution id p)) [
  | inl missing ↦ unfold begin_execute in ground arith
  | inr (e, known) ↦ absurd (unfold begin_execute in ground arith)
]

-- When an execution begins, its lease is held for the same paths and no other execution is
-- undecided; afterwards it is the only one that is.
pub begin_execute_excludes :
    (id : ℕ) (paths : Paths) (source : Option String) (p p' : Provider)
    → begin_execute id paths source p ≡ answer p'
    → (leased paths (find_lease id p) ≡ true)
      × (find_execution id p' ≡ some (new_execution id))
      × ((i : ℕ) (a : Execution) → find_execution i p' ≡ some a → undecided a ≡ true → i ≡ id)
      × IsExclusive p'
begin_execute_excludes id paths source p p' h =
    let (missing, held, idle, changed) = begin_execute_cases id paths source p p' h in
    let only : (i : ℕ) (a : Execution)
        → find_execution i p' ≡ some a
        → undecided a ≡ true
        → i ≡ id =
      λ i a known open'. elim (Option-cases (find_execution i p)) [
        | inr (b, known') ↦ absurd (
            ground (
              arith,
              changed,
              find-append (λ (x : Execution). x.run_id) i p.executions (new_execution id ∷ []),
              exists-find (λ (x : Execution). x.run_id) undecided p.executions i b idle known',
            ))
        | inl none' ↦
            unfold find in
            ground (
              arith,
              changed,
              ==_iff id i,
              find-append (λ (x : Execution). x.run_id) i p.executions (new_execution id ∷ []),
            )
      ] in
    (
      held,
      unfold find in
          ground (
            arith,
            changed,
            ==-refl id,
            find-append (λ (x : Execution). x.run_id) id p.executions (new_execution id ∷ []),
          ),
      only,
      λ i j a b x y u v. only i a x u ∙ sym (only j b y v),
    )
