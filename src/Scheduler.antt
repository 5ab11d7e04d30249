-- ===== src/Scheduler.antt =====
-- services/control-plane/internal/runs/scheduler.go. Each turn of the loop is given by what its calls
-- answer; times are in seconds.
pub mod Order
pub mod Waits
use harness_forge.Base.{
  ℕ, ◌*◌, Bool, true, false, not, ◌&&◌, Option, none, some, List, [], ◌∷◌, leb, min_of,
  if◌then◌else◌,
}
use harness_forge.Schema.{Run, Result, ok, err}
use harness_forge.Reconciler.{Trouble, inconsistent, is_trouble}

-- the answers in one turn: Reconcile, ClaimNext, Execute, and whether the context outlives a wait
pub record Turn : Type 0 where
  pub reconciled : List Trouble
  pub claim : Result (Option Run)
  pub executed : List Trouble
  pub alive : Bool

-- What the scheduler does: a reconciliation, of all runs or of ended ones, and whether it was clean; a
-- wait; a claim and an execution, and whether they went well; and the wait for the end of the context.
pub data Move : Type 0 where
  reconcile : Bool → Bool → Move
  wait : ℕ → Move
  claim execute : Bool → Move
  halt : Move

-- the variables of Run, with what was done, the last move first
pub record Loop : Type 0 where
  pub startup : Bool
  pub backoff : ℕ
  pub ready : Bool
  pub moves : List Move

abbrev pub is_clean : List Trouble → Bool
is_clean [] = true
is_clean (_ ∷ _) = false

abbrev pub then_move : Move → Loop → Loop
then_move m l = record l { moves = m ∷ l.moves }

abbrev pub minute : ℕ
minute = 60

-- the loop's variables, and whether it goes on
abbrev pub Next : Type 0
Next = Loop × Bool

-- a reconciliation that failed
abbrev pub pause : Turn → Loop → Next
pause t l = if is_trouble inconsistent t.reconciled then (then_move halt l, false) else (
  record (then_move (wait l.backoff) l) { backoff = min_of (l.backoff * 2) minute },
  t.alive,
)

-- a run that was executed
abbrev pub after_execute : Turn → Loop → Next
after_execute t l =
    if is_clean t.executed
    then (l, true)
    else if is_trouble inconsistent t.executed
    then (then_move halt (record l { startup = true; ready = false }), false)
    else (record l { startup = true }, true)

abbrev pub after_claim : ℕ → Turn → Result (Option Run) → Loop → Next
after_claim poll t (err e) l = (
  then_move (wait l.backoff) (record (then_move (claim false) l) { startup = true; ready = false }),
  t.alive,
)
after_claim poll t (ok none) l = (then_move (wait poll) (then_move (claim true) l), t.alive)
after_claim poll t (ok (some r)) l =
    after_execute t (then_move (execute (is_clean t.executed)) (then_move (claim true) l))

-- one turn of the loop
unfoldable pub turn : ℕ → ℕ → Turn → Loop → Next
turn poll retry t l =
    let l' = then_move (reconcile (not l.startup) (is_clean t.reconciled)) l in
    if is_clean t.reconciled
    then after_claim poll t t.claim (record l' { startup = false; backoff = retry; ready = true })
    else pause t (record l' { ready = false })

-- Run, for as long as there are turns before the context ends
unfoldable pub run_turns : ℕ → ℕ → List Turn → Loop → Loop
unfolding turn
run_turns poll retry [] l = record l { ready = false }
run_turns poll retry (t ∷ rest) l =
    let next = turn poll retry t l in
    let final = run_turns poll retry rest next.0 in
    if next.1 then final else record next.0 { ready = false }

-- the variables at the start of Run
abbrev pub new_loop : ℕ → Loop
new_loop retry = record { startup = true; backoff = retry; ready = false; moves = [] }
