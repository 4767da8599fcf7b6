-- ===== src/Jobs/Claim.antt =====
-- ClaimJob of media_job_store.go, with the recovery of an exhausted job and the explanation of a
-- refused claim.
use seta_im_intern.Prelude.{
  ℕ, ◌+◌, ◌-◌, Bool, true, not, ◌&&◌, Option, none, some, ltb, leb, ◌==◌, if◌then◌else◌, update_row,
  select_row, is_some, is_null, Result, ok, err, transaction,
}
use seta_im_intern.Media.{Db, Job, JobLease, JobStatus, lapsed, is_live, validating}
use seta_im_intern.Jobs.Rows.{
  JobStore, attempts, JobError, job_not_found, job_terminal, job_isolated, job_leased, job_not_due,
  job_exhausted, job_not_claimed, owner_required, is_processing, is_open, Times,
  fail_exhausted_media_job,
}

-- The EXISTS subquery: the job's asset is there and not deleted.
abbrev pub has_active_asset : Db → ℕ → Bool
has_active_asset db asset_id = is_some (select_row db.assets asset_id (λ a. is_null a.deleted_at))

abbrev pub is_claimable : JobStore → Db → ℕ → Job → Bool
is_claimable store db now job =
    is_open job.status
    && (has_active_asset db job.asset_id
        && (leb job.next_attempt_at now
            && (is_null job.notification_isolated_at
                && (ltb job.attempt_count (attempts store) && lapsed job.lease_expires_at now))))

abbrev pub or_else : Option ℕ → ℕ → Option ℕ
or_else none now = some now
or_else (some t) now = some t

abbrev pub claimed_job : JobStore → ℕ → ℕ → Job → Job
claimed_job store owner now job = record job {
  status = JobStatus.processing;
  stage = some validating;
  attempt_count = job.attempt_count + 1;
  lease_owner = some owner;
  lease_expires_at = some (now + store.lease_expiry);
  started_at = or_else job.started_at now;
}

-- What a claim returns: the row as updated, its lease, and whether an expired lease was taken over.
pub record Claim : Type 0 where
  pub job : Job
  pub lease : JobLease
  pub recovered_lease : Bool
  pub recovery_latency : ℕ

pub data ClaimOutcome : Type 0 where
  claimed : Claim → ClaimOutcome
  recovered_exhaustion : ClaimOutcome

abbrev pub latency : Bool → Option ℕ → ℕ → ℕ
latency true (some t) now = now - t
latency _ _ now = 0

unfoldable pub claim_of : JobStore → ℕ → ℕ → Job → Claim
claim_of store owner now before =
    let recovered = is_processing before.status && not (is_null before.lease_expires_at) in
    record {
      job = claimed_job store owner now before;
      lease = record { owner = owner; expires_at = now + store.lease_expiry };
      recovered_lease = recovered;
      recovery_latency = latency recovered before.lease_expires_at now;
    }

abbrev pub is_exhausted : JobStore → ℕ → Job → Bool
is_exhausted store now job =
    is_processing job.status
    && (is_null job.notification_isolated_at
        && (leb (attempts store) job.attempt_count && lapsed job.lease_expires_at now))

unfoldable pub explain : JobStore → ℕ → Option Job → JobError
explain store now none = job_not_found
explain store now (some job) =
    if not (is_null job.notification_isolated_at)
    then job_isolated
    else if not (is_open job.status)
    then job_terminal
    else if is_live job.lease_expires_at now
    then job_leased
    else if leb (attempts store) job.attempt_count
    then job_exhausted
    else if ltb now job.next_attempt_at
    then job_not_due
    else job_not_claimed

module _ (store : JobStore) (at : Times) (owner id : ℕ) (db : Db) where
  -- A row that the recovery takes: it is leased to the claimant and then failed.
  unfoldable pub recover : Option Job → Option Db
  unfolding fail_exhausted_media_job
  recover none = none
  recover (some job) =
      let leased = record db {
        jobs = update_row db.jobs id (is_exhausted store (at 1)) (λ j. record j {
          lease_owner = some owner;
          lease_expires_at = some (at 1 + store.lease_expiry);
        });
      } in
      some (fail_exhausted_media_job (at 2) (at 3) id job leased)

  unfoldable pub settle_expired_exhausted_claim : Option Db
  unfolding recover
  settle_expired_exhausted_claim = recover (select_row db.jobs id (is_exhausted store (at 1)))

  unfoldable pub recover_or_explain : Option Db → Result JobError (Db × ClaimOutcome)
  unfolding explain
  recover_or_explain (some settled) = ok (settled, recovered_exhaustion)
  recover_or_explain none = err (explain store (at 2) (db.jobs id))

  unfoldable pub take : Option Job → Result JobError (Db × ClaimOutcome)
  unfolding settle_expired_exhausted_claim recover_or_explain claim_of
  take none = recover_or_explain settle_expired_exhausted_claim
  take (some job) = ok (
    record db {
      jobs = update_row db.jobs id (is_claimable store db (at 0)) (claimed_job store owner (at 0));
    },
    claimed (claim_of store owner (at 0) job),
  )

  unfoldable pub claim_work : Result JobError (Db × ClaimOutcome)
  unfolding take
  claim_work = take (select_row db.jobs id (is_claimable store db (at 0)))

abbrev pub claim_result : Result JobError ClaimOutcome → Result JobError Claim
claim_result (ok (claimed c)) = ok c
claim_result (ok recovered_exhaustion) = err job_terminal
claim_result (err e) = err e

-- The recovery commits and then reports a terminal job.
unfoldable pub claim_job : JobStore → Times → ℕ → ℕ → Db → Db × Result JobError Claim
unfolding claim_work
claim_job store at owner id db =
    if owner == 0
    then (db, err owner_required)
    else let (db', r) = transaction (claim_work store at owner id) db in (db', claim_result r)
