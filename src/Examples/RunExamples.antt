-- ===== src/Examples/RunExamples.antt =====
-- Witnesses for the theorems on runs, their events and their stream.
use harness_forge.Base.{◌≡◌, refl, true, false, none, some, [], ◌∷◌}
use harness_forge.Schema.{running, failed, preparing, Run, Database, Result, ok, err, find_run}
use harness_forge.Lifecycle.Steps.{
  created, claimed, changed, Reach, here, next, failure_recorded, end_acknowledged,
}
use harness_forge.Lifecycle.Steps.Invariant.{IsWellFormed}
use harness_forge.Lifecycle.Steps.Safety.{Reach-IsWellFormed}
use harness_forge.Lifecycle.Steps.Outcomes.{Reach-SameOutcome, claim_next_first, SameOutcome}
use harness_forge.RunStore.{create_queued_tx, claim_next, is_active, is_candidate, older}
use harness_forge.Events.{
  append_event_tx, recorded_sequence, recorded_key, append_new, validate_event, announced,
}
use harness_forge.Base.Text.{is_blank, concat}
use harness_forge.Events.Sequence.{IsSequenced, events_of}
use harness_forge.Base.Tables.{find, update, exists, where_rows, order_by, first}
use harness_forge.Base.Keys.{All}
use harness_forge.RunChanges.{record_failure}
use harness_forge.RunCommit.{announce, stamp, acknowledge_finalized, commit_products}
use harness_forge.Examples.Data.{
  seeded, waiting, submitted, claimed_run, active, failed_run, failed_database, lost_worker, format,
  publishable, report,
}

pub seeded-IsWellFormed : IsWellFormed seeded
unfolding find events_of where_rows
seeded-IsWellFormed = record {
  keyed = tt;
  sequenced = record { ascends = λ i r e. cc; owned = λ i e. refl };
  sound = λ i r e. cc;
  single = λ i j a b p q x y. cc;
}

create_step : create_queued_tx 7 2 3 none 20 seeded ≡ ok (waiting, submitted)
unfolding create_queued_tx find
create_step = refl

claim_step : claim_next (λ _. false) 21 submitted ≡ ok (some claimed_run, active)
unfolding claim_next exists where_rows order_by find update
claim_step = refl

abbrev to_active : Reach seeded active
to_active =
    next (next here (created 7 2 3 none 20 waiting create_step))
      (claimed (λ _. false) 21 (some claimed_run) claim_step)

Reach-IsWellFormed_example : IsWellFormed active
Reach-IsWellFormed_example = Reach-IsWellFormed to_active seeded-IsWellFormed

submitted-IsWellFormed : IsWellFormed submitted
submitted-IsWellFormed =
    Reach-IsWellFormed (next here (created 7 2 3 none 20 waiting create_step)) seeded-IsWellFormed

pub submitted-IsSequenced : IsSequenced submitted
submitted-IsSequenced = submitted-IsWellFormed.sequenced

claim_next_first_example :
    (exists is_active submitted.runs ≡ false)
    × ((r : Run) × (find_run r.id submitted ≡ some r)
        × (is_candidate (λ _. false) r ≡ true)
        × All (λ (q : Run). is_candidate (λ _. false) q ≡ true → older r q ≡ true) submitted.runs
        × (find_run r.id active ≡ some claimed_run)
        × (claimed_run.status ≡ running)
        × (claimed_run.phase ≡ some preparing))
claim_next_first_example =
    claim_next_first (λ _. false) 21 submitted active claimed_run submitted-IsWellFormed claim_step

fail_step : record_failure 7 failed lost_worker 40 active ≡ ok (failed_run, failed_database)
unfolding record_failure find update
fail_step = refl

abbrev to_failed : Reach seeded failed_database
to_failed =
    next to_active (changed 7 (failure_recorded 7 failed lost_worker 40 failed_run fail_step))

abbrev database_of : Result Database → Database
database_of (ok db) = db
database_of (err e) = failed_database

abbrev ended : Database
ended = database_of (acknowledge_finalized format 7 50 failed_database)

end_step : acknowledge_finalized format 7 50 failed_database ≡ ok ended
unfolding acknowledge_finalized find announce append_event_tx update stamp recorded_sequence
    recorded_key first append_new validate_event is_blank concat announced exists
end_step = refl

known_failed : find_run 7 failed_database ≡ some failed_run
unfolding find
known_failed = refl

Reach-SameOutcome_example : (r' : Run) × (find_run 7 ended ≡ some r') × SameOutcome failed_run r'
Reach-SameOutcome_example =
    Reach-SameOutcome 7 failed_run (next here (changed 7 (end_acknowledged format 7 50 end_step)))
      (Reach-IsWellFormed to_failed seeded-IsWellFormed) known_failed refl

publish_step : Result Database
publish_step = commit_products 7 1 "s2" (report ∷ []) 60 publishable
