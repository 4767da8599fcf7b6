-- ===== src/Worker/Job.antt =====
-- RunJob of usecase/media_worker.go, over the job store, with the executor's work as an argument.
-- Metrics and the log are left out.
use seta_im_intern.Prelude.{ℕ, Bool, true, false, List, if◌then◌else◌, Result, ok, err}
use seta_im_intern.Media.{Db, Job}
use seta_im_intern.Events.{Codec}
use seta_im_intern.Jobs.Rows.{
  JobStore, JobError, Times, job_terminal, job_isolated, job_leased, job_not_due,
}
use seta_im_intern.Jobs.Claim.{Claim, claim_job}
use seta_im_intern.Jobs.Settle.{settle_execution_failure}
use seta_im_intern.Worker.Lease.{
  Held, renewing, KeeperEvent, Activity, hold, renew_until_lost, lease_was_lost,
}

pub data RunError : Type 0 where
  job_settled job_unavailable lease_lost : RunError
  store_error : JobError → RunError

-- What happens between the claim and the return of RunJob. `activities` last until Execute returns;
-- the keeper goes on until RunJob returns, `late` before the lease is read for the settlement and
-- `later` after it is.
pub record Execution : Type 0 where
  pub activities : Job → List Activity
  pub failed : Job → Db → Bool
  pub late : List KeeperEvent
  pub later : List KeeperEvent

-- The instants of the claim and of the settlement, and what the settlement's outbox row needs.
pub record Schedule : Type 0 where
  pub claim_at : Times
  pub settle_at : Times
  pub outbox_id : ℕ
  pub traceparent : ℕ

unfoldable pub classify_claim_failure : JobError → RunError
classify_claim_failure job_terminal = job_settled
classify_claim_failure job_isolated = job_settled
classify_claim_failure job_leased = job_unavailable
classify_claim_failure job_not_due = job_unavailable
classify_claim_failure e = store_error e

module _ (codec : Codec) (store : JobStore) (owner : ℕ) (execution : Execution)
    (schedule : Schedule) (id : ℕ) where
  abbrev pub after_settlement : Db × Result JobError Bool → Db × Result RunError (Unit {0})
  after_settlement (db, err e) = (db, err (store_error e))
  after_settlement (db, ok false) = (db, err lease_lost)
  after_settlement (db, ok true) = (db, ok tt)

  unfoldable pub settle_failed : Job → Held → Db × Result RunError (Unit {0})
  unfolding renew_until_lost settle_execution_failure
  settle_failed job held =
      let reading = renew_until_lost store id execution.late held in
      let settling = renew_until_lost store id execution.later reading in
      after_settlement (
        settle_execution_failure codec store schedule.settle_at schedule.outbox_id
          schedule.traceparent id job reading.current settling.db)

  unfoldable pub after_execution : Job → Held → Db × Result RunError (Unit {0})
  unfolding settle_failed
  after_execution job held =
      if lease_was_lost held.keeper
      then (held.db, err lease_lost)
      else if execution.failed job held.db
      then settle_failed job held
      else (held.db, ok tt)

  unfoldable pub after_claim : Db × Result JobError Claim → Db × Result RunError (Unit {0})
  unfolding after_execution hold classify_claim_failure
  after_claim (db, err e) = (db, err (classify_claim_failure e))
  after_claim (db, ok claim) = after_execution claim.job (
      hold store id (execution.activities claim.job)
        (record { db = db; current = claim.lease; keeper = renewing }))

  unfoldable pub run_job : Db → Db × Result RunError (Unit {0})
  unfolding after_claim claim_job
  run_job db = after_claim (claim_job store schedule.claim_at owner id db)
