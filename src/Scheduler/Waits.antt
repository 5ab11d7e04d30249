-- ===== src/Scheduler/Waits.antt =====
-- Run of services/control-plane/internal/runs/scheduler.go: lemmas on its waits.
use harness_forge.Base.{
  ℕ, ◌≡◌, ◌≤◌, ◌⊎◌, inl, inr, refl, Option, none, some, List, [], ◌∷◌, arith, Bool-cases,
}
use harness_forge.Base.Keys.{All}
use harness_forge.Schema.{Run, Result, ok, err}
use harness_forge.Reconciler.{inconsistent, is_trouble}
use harness_forge.Scheduler.{
  Turn, Move, wait, Loop, is_clean, minute, after_claim, turn, run_turns, new_loop,
}

-- a wait of the poll interval, or one between the first backoff and a minute
abbrev pub IsPaced : ℕ → ℕ → Move → Type 0
IsPaced poll retry (wait n) = (n ≡ poll) ⊎ ((retry ≤ n) × (n ≤ minute))
IsPaced poll retry _ = Unit

record IsBounded (poll retry : ℕ) (l : Loop) : Type 0 where
  least : retry ≤ l.backoff
  most : l.backoff ≤ minute
  paced : All (IsPaced poll retry) l.moves

after_claim-IsBounded :
    (poll retry : ℕ) (t : Turn) (r : Result (Option Run)) (l : Loop)
    → IsBounded poll retry l
    → IsBounded poll retry (after_claim poll t r l).0
after_claim-IsBounded poll retry t (err e) l b = record {
  least = b.least;
  most = b.most;
  paced = (inr (b.least, b.most), (tt, b.paced));
}
after_claim-IsBounded poll retry t (ok none) l b = record {
  least = b.least;
  most = b.most;
  paced = (inl refl, (tt, b.paced));
}
after_claim-IsBounded poll retry t (ok (some r)) l b = elim (Bool-cases (is_clean t.executed)) [
  | inl clean ↦ rw clean (record { least = b.least; most = b.most; paced = (tt, (tt, b.paced)) })
  | inr dirty ↦ rw dirty (elim (Bool-cases (is_trouble inconsistent t.executed)) [
    | inl stop ↦
        rw stop (record { least = b.least; most = b.most; paced = (tt, (tt, (tt, b.paced))) })
    | inr onward ↦
        rw onward (record { least = b.least; most = b.most; paced = (tt, (tt, b.paced)) })
  ])
]

turn-IsBounded :
    (poll retry : ℕ) (t : Turn) (l : Loop)
    → retry ≤ minute
    → IsBounded poll retry l
    → IsBounded poll retry (turn poll retry t l).0
unfolding turn
turn-IsBounded poll retry t l small b = elim (Bool-cases (is_clean t.reconciled)) [
  | inl clean ↦ rw clean (
      after_claim-IsBounded poll retry t t.claim _
        (record { least = omega arith; most = small; paced = (tt, b.paced) }))
  | inr dirty ↦ rw dirty (elim (Bool-cases (is_trouble inconsistent t.reconciled)) [
    | inl stop ↦ rw stop (record { least = b.least; most = b.most; paced = (tt, (tt, b.paced)) })
    | inr onward ↦ rw onward (record {
      least = ground (arith, b.least, b.most, small);
      most = ground (arith, b.least);
      paced = (inr (b.least, b.most), (tt, b.paced));
    })
  ])
]

run_turns-IsBounded :
    (poll retry : ℕ) (turns : List Turn) (l : Loop)
    → retry ≤ minute
    → IsBounded poll retry l
    → All (IsPaced poll retry) (run_turns poll retry turns l).moves
unfolding run_turns
run_turns-IsBounded poll retry [] l small b = b.paced
run_turns-IsBounded poll retry (t ∷ rest) l small b =
    let next = turn-IsBounded poll retry t l small b in
    elim (Bool-cases (turn poll retry t l).1) [
      | inl onward ↦
          rw onward (run_turns-IsBounded poll retry rest (turn poll retry t l).0 small next)
      | inr over ↦ rw over next.paced
    ]

-- When the first backoff is at most a minute, each wait of the scheduler is the poll interval, or at
-- least the first backoff and at most a minute.
pub run_turns-IsPaced :
    (poll retry : ℕ) (turns : List Turn)
    → retry ≤ minute
    → All (IsPaced poll retry) (run_turns poll retry turns (new_loop retry)).moves
run_turns-IsPaced poll retry turns small =
    run_turns-IsBounded poll retry turns (new_loop retry) small
      (record { least = omega arith; most = small; paced = tt })
