-- ===== src/State.antt =====
-- services/control-plane/internal/runs/state.go: the state machine of a run.
pub mod Outcome
use harness_forge.Base.{
  ℕ, String, Bool, true, false, not, ◌&&◌, ◌||◌, Option, none, some, ◌==◌, ltb, if◌then◌else◌,
  is_some,
}
use harness_forge.Schema.{
  Status, queued, running, succeeded, failed, cancelled, interrupted, Phase, preparing, agent,
  publishing, same_status, same_phase, is_phase, Run, Error, conflict, Result, ok, err,
}

-- Presence is a uint8: `unknown`, `absent` and `present` are its three names.
abbrev Presence : Type 0
Presence = ℕ

abbrev pub unknown : Presence
unknown = 0

abbrev pub absent : Presence
absent = 1

abbrev pub present : Presence
present = 2

-- Disposition is a string; `unset` is "".
pub data Disposition : Type 0 where
  unset abort commit : Disposition
  other : String → Disposition

abbrev is_unset : Disposition → Bool
is_unset unset = true
is_unset _ = false

abbrev is_abort : Disposition → Bool
is_abort abort = true
is_abort _ = false

abbrev is_commit : Disposition → Bool
is_commit commit = true
is_commit _ = false

pub record Cleanup : Type 0 where
  pub lease : Presence
  pub runtime : Presence
  pub disposition : Disposition
  pub released : Bool

abbrev pub terminal : Status → Bool
terminal succeeded = true
terminal failed = true
terminal cancelled = true
terminal interrupted = true
terminal _ = false

unfoldable pub start : Run → ℕ → Result Run
start run now =
    if not (same_status run.status queued) || is_some run.finalized_at
    then err conflict
    else ok (record run { status = running; phase = some preparing; updated_at = now })

-- *run.Phase == Preparing && phase == Agent, or *run.Phase == Agent && phase == Publishing
abbrev pub follows : Option Phase → Phase → Bool
follows current phase =
    (is_phase preparing current && same_phase phase agent)
    || (is_phase agent current && same_phase phase publishing)

unfoldable pub advance : Run → Phase → ℕ → Result Run
advance run phase now =
    if not (same_status run.status running)
      || is_some run.finalized_at
      || not (follows run.phase phase)
    then err conflict
    else ok (record run { phase = some phase; updated_at = now })

-- The acknowledgements that `Finish` refuses: values out of range, or that contradict one another.
unfoldable bad_cleanup : Run → Status → Cleanup → Bool
bad_cleanup run status cleanup =
    ltb present cleanup.lease
    || ltb present cleanup.runtime
    || (cleanup.lease == absent && (is_some run.sandbox_ref || cleanup.runtime == present))
    || (not (is_unset cleanup.disposition)
        && not (is_abort cleanup.disposition)
        && not (is_commit cleanup.disposition))
    || (is_commit cleanup.disposition && not (same_status status succeeded))
    || (is_abort cleanup.disposition && same_status status succeeded)

unfoldable pub runtime_done : Cleanup → Bool
runtime_done cleanup =
    cleanup.runtime == absent || (cleanup.runtime == present && not (is_unset cleanup.disposition))

unfoldable pub lease_done : Cleanup → Bool
lease_done cleanup = cleanup.lease == absent || (cleanup.lease == present && cleanup.released)

-- The first guard: `status` is no outcome, or the run already has another.
unfoldable other_outcome : Run → Status → Bool
other_outcome run status =
    not (terminal status)
    || (not (same_status run.status running)
        && not (same_status run.status queued)
        && not (same_status run.status status))
    || (is_some run.finalized_at && not (same_status run.status status))

finish_queued : Run → Status → ℕ → Result Run
finish_queued run status now =
    if not (same_status status cancelled) || is_some run.sandbox_provider || is_some run.sandbox_ref
    then err conflict
    else ok (record run { status = status; finalized_at = some now; updated_at = now })

-- The phase of a run that is not queued allows the outcome.
unfoldable wrong_phase : Run → Status → Cleanup → Bool
wrong_phase run status cleanup =
    not (is_some run.phase)
    || (same_status status cancelled && is_phase publishing run.phase)
    || (same_status status succeeded
        && (not (is_phase publishing run.phase)
            || cleanup.lease == absent
            || cleanup.runtime == absent))

finish_active : Run → Status → Cleanup → ℕ → Result Run
unfolding wrong_phase bad_cleanup runtime_done lease_done
finish_active run status cleanup now =
    if wrong_phase run status cleanup || bad_cleanup run status cleanup
    then err conflict
    else ok (record run {
      status = status;
      updated_at = now;
      finalized_at =
          if runtime_done cleanup && lease_done cleanup then some now else run.finalized_at;
    })

unfoldable pub finish : Run → Status → Cleanup → ℕ → Result Run
unfolding other_outcome finish_queued finish_active
finish run status cleanup now =
    if other_outcome run status
    then err conflict
    else if same_status run.status queued
    then finish_queued run status now
    else if is_some run.finalized_at
    then ok run
    else finish_active run status cleanup now
