-- ===== src/Jobs/Rows.antt =====
-- What the operations of the job store share: the store's configuration, its errors, and the
-- statements that several of them run (media_job_store.go, media_promotion.go).
use seta_im_intern.Prelude.{
  ℕ, ◌+◌, Bool, true, false, ◌&&◌, none, some, List, ◌==◌, length, Table, update_row, is_value,
}
use seta_im_intern.Media.{Db, Job, JobLease, JobStatus, VersionStatus, Version, Asset, is_live}

-- The retry delays and the lease's length, in the unit of an instant.
pub record JobStore : Type 0 where
  pub lease_expiry : ℕ
  pub delays : List ℕ

-- `attempts: len(delays) + 1`
abbrev pub attempts : JobStore → ℕ
attempts store = length store.delays + 1

pub data JobError : Type 0 where
  job_not_found job_terminal job_isolated job_leased job_not_due job_exhausted : JobError
  lease_not_held job_not_claimed owner_required no_retry_delay version_not_found : JobError
  event_not_built duplicate_event incomplete_output_set version_not_pending : JobError

abbrev pub media_processing_failed_code : ℕ
media_processing_failed_code = 1

abbrev pub is_processing : JobStatus → Bool
is_processing JobStatus.processing = true
is_processing _ = false

abbrev pub is_open : JobStatus → Bool
is_open JobStatus.queued = true
is_open JobStatus.processing = true
is_open _ = false

-- `status = 'processing' AND lease_owner = ? AND lease_expires_at = ? AND lease_expires_at > now`
abbrev pub held_by : JobLease → ℕ → Job → Bool
held_by held now job =
    is_processing job.status
    && (is_value job.lease_owner held.owner
        && (is_value job.lease_expires_at held.expires_at && is_live job.lease_expires_at now))

-- statement_timestamp() of each statement of a transaction, by its position.
abbrev pub Times : Type 0
Times = ℕ → ℕ

unfoldable pub clear_pending_media_version : ℕ → ℕ → Table Asset → Table Asset
clear_pending_media_version asset_id version_id assets =
    update_row assets asset_id (λ a. is_value a.pending_media_version_id version_id)
      (λ a. record a { pending_media_version_id = none })

pub record MediaFailure : Type 0 where
  pub job_id : ℕ
  pub version_id : ℕ
  pub org_id : ℕ
  pub asset_id : ℕ
  pub error_code : ℕ

abbrev pub failed_version : ℕ → ℕ → Version → Version
failed_version code now v = record v {
  status = VersionStatus.failed;
  failure_code = some code;
  failed_at = some now;
}

abbrev pub failed_job : ℕ → ℕ → Job → Job
failed_job code now j = record j {
  status = JobStatus.failed;
  stage = none;
  failed_at = some now;
  last_error_code = some code;
  lease_owner = none;
  lease_expires_at = none;
}

-- `version_now` and `job_now` are the times of the two statements that read the clock.
unfoldable pub fail_media_version : ℕ → ℕ → MediaFailure → Db → Db
unfolding clear_pending_media_version
fail_media_version version_now job_now failure db = record db {
  versions =
      update_row db.versions failure.version_id (λ v. v.org_id == failure.org_id)
        (failed_version failure.error_code version_now);
  assets = clear_pending_media_version failure.asset_id failure.version_id db.assets;
  jobs = update_row db.jobs failure.job_id (λ _. true) (failed_job failure.error_code job_now);
}

unfoldable pub fail_exhausted_media_job : ℕ → ℕ → ℕ → Job → Db → Db
unfolding fail_media_version
fail_exhausted_media_job version_now job_now id job db =
    fail_media_version version_now job_now
      (record {
        job_id = id;
        version_id = job.version_id;
        org_id = job.org_id;
        asset_id = job.asset_id;
        error_code = media_processing_failed_code;
      })
      db
