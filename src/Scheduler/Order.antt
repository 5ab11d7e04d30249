-- ===== src/Scheduler/Order.antt =====
-- Run of services/control-plane/internal/runs/scheduler.go: an order of moves as a predicate, and lemmas.
use harness_forge.Base.{
  ℕ, ◌≡◌, inl, inr, refl, Bool, true, false, not, ◌&&◌, Option, none, some, List, [], ◌∷◌,
  if◌then◌else◌, arith, Bool-cases,
}
use harness_forge.Schema.{Run, Result, ok, err}
use harness_forge.Reconciler.{inconsistent, is_trouble}
use harness_forge.Scheduler.{
  Turn, Move, reconcile, wait, claim, execute, halt, Loop, Next, is_clean, after_claim,
  after_execute, turn, run_turns, new_loop,
}

-- a run may have been left behind: nothing was reconciled yet, or a claim or an execution failed since
unfoldable pub residue : List Move → Bool
residue [] = true
residue (reconcile terminal_only clean ∷ before) =
    let r = residue before in if clean then false else r
residue (claim done' ∷ before) = let r = residue before in if done' then r else true
residue (execute done' ∷ before) = let r = residue before in if done' then r else true
residue (_ ∷ before) = residue before

abbrev pub is_halted : List Move → Bool
is_halted (halt ∷ _) = true
is_halted _ = false

abbrev pub is_ready : List Move → Bool
is_ready (reconcile _ clean ∷ _) = clean
is_ready _ = false

abbrev pub has_claimed : List Move → Bool
has_claimed (claim done' ∷ _) = done'
has_claimed _ = false

-- A claim comes right after a clean reconciliation, an execution right after a claim; only ended runs
-- are reconciled only when nothing may have been left behind; and nothing comes after a halt.
abbrev pub may_move : Move → List Move → Bool
may_move (claim _) before = is_ready before
may_move (execute _) before = has_claimed before
may_move (reconcile terminal_only _) before =
    not (terminal_only && residue before) && not (is_halted before)
may_move _ before = not (is_halted before)

unfoldable pub orderly : List Move → Bool
orderly [] = true
orderly (m ∷ before) = may_move m before && orderly before

record IsOrderly (l : Loop) : Type 0 where
  moves : orderly l.moves ≡ true
  startup : l.startup ≡ residue l.moves
  going : is_halted l.moves ≡ false

-- a turn keeps the order, and if the loop goes on, the rest too
record IsNext (next : Next) : Type 0 where
  moves : orderly next.0.moves ≡ true
  onward : next.1 ≡ true → IsOrderly next.0

after_execute-IsNext :
    (t : Turn) (l : Loop)
    → (has_claimed l.moves && orderly l.moves) ≡ true
    → l.startup ≡ residue l.moves
    → IsNext (after_execute t (record l { moves = execute (is_clean t.executed) ∷ l.moves }))
unfolding residue orderly
after_execute-IsNext t l o s = elim (Bool-cases (is_clean t.executed)) [
  | inl clean ↦
      rw clean (record { moves = o; onward = λ _. record { moves = o; startup = s; going = refl } })
  | inr dirty ↦ rw dirty (elim (Bool-cases (is_trouble inconsistent t.executed)) [
    | inl stop ↦ rw stop (record { moves = o; onward = λ more. absurd (cc) })
    | inr onward ↦
        rw onward
          (record { moves = o; onward = λ _. record { moves = o; startup = refl; going = refl } })
  ])
]

after_claim-IsNext :
    (poll : ℕ) (t : Turn) (r : Result (Option Run)) (l : Loop)
    → orderly l.moves ≡ true
    → l.startup ≡ residue l.moves
    → is_ready l.moves ≡ true
    → IsNext (after_claim poll t r l)
unfolding residue orderly
after_claim-IsNext poll t (err e) l o s ready =
    let o' : orderly (wait l.backoff ∷ claim false ∷ l.moves) ≡ true = rw (ready, o) refl in
    record { moves = o'; onward = λ _. record { moves = o'; startup = refl; going = refl } }
after_claim-IsNext poll t (ok none) l o s ready =
    let o' : orderly (wait poll ∷ claim true ∷ l.moves) ≡ true = rw (ready, o) refl in
    record { moves = o'; onward = λ _. record { moves = o'; startup = s; going = refl } }
after_claim-IsNext poll t (ok (some r)) l o s ready =
    after_execute-IsNext t (record l { moves = claim true ∷ l.moves }) (rw (ready, o) refl) s

reconcile-orderly :
    (clean : Bool) (l : Loop)
    → IsOrderly l
    → orderly (reconcile (not l.startup) clean ∷ l.moves) ≡ true
unfolding orderly
reconcile-orderly clean l i = ground (arith, i.startup, i.going, i.moves)

turn-IsNext : (poll retry : ℕ) (t : Turn) (l : Loop) → IsOrderly l → IsNext (turn poll retry t l)
unfolding turn residue orderly
turn-IsNext poll retry t l i = elim (Bool-cases (is_clean t.reconciled)) [
  | inl clean ↦ rw clean (
      after_claim-IsNext poll t t.claim
        (record l {
          startup = false;
          backoff = retry;
          ready = true;
          moves = reconcile (not l.startup) true ∷ l.moves;
        })
        (reconcile-orderly true l i) refl refl)
  | inr dirty ↦
      let o : orderly (reconcile (not l.startup) false ∷ l.moves) ≡ true =
        reconcile-orderly false l i in
      rw dirty (elim (Bool-cases (is_trouble inconsistent t.reconciled)) [
        | inl stop ↦ rw stop (record { moves = o; onward = λ more. absurd (cc) })
        | inr onward ↦ rw onward (record {
          moves = o;
          onward = λ _. record { moves = o; startup = i.startup; going = refl };
        })
      ])
]

run_turns-IsOrderly :
    (poll retry : ℕ) (turns : List Turn) (l : Loop)
    → IsOrderly l
    → orderly (run_turns poll retry turns l).moves ≡ true
unfolding run_turns
run_turns-IsOrderly poll retry [] l i = i.moves
run_turns-IsOrderly poll retry (t ∷ rest) l i =
    let next = turn-IsNext poll retry t l i in
    elim (Bool-cases (turn poll retry t l).1) [
      | inl onward ↦
          rw onward
            (run_turns-IsOrderly poll retry rest (turn poll retry t l).0 (next.onward onward))
      | inr over ↦ rw over next.moves
    ]

-- Whatever the calls answer, the scheduler claims only right after a clean reconciliation, executes only
-- right after a claim, reconciles all runs and not only the ended ones until a reconciliation is clean
-- at the start and after a claim or an execution failed, and does nothing more after it has halted.
pub run_turns-orderly :
    (poll retry : ℕ) (turns : List Turn)
    → orderly (run_turns poll retry turns (new_loop retry)).moves ≡ true
unfolding orderly residue
run_turns-orderly poll retry turns =
    run_turns-IsOrderly poll retry turns (new_loop retry)
      (record { moves = refl; startup = refl; going = refl })
