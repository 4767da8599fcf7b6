-- ===== src/Jobs/Settle.antt =====
-- SettleExecutionFailure of media_job_store.go: a failed execution is retried after a delay, or
-- failed for good when its attempts are used up.
use seta_im_intern.Prelude.{
  ℕ, zero, suc, ◌+◌, Bool, true, false, not, ◌&&◌, ◌||◌, Option, none, some, List, [], ◌∷◌, ◌++◌,
  leb, ◌==◌, if◌then◌else◌, get_elem?, any, update_row, select_row, Result, ok, err, ◌>>=◌, ◌>>◌,
  refuse_if, transaction,
}
use seta_im_intern.Media.{Db, Job, JobLease, JobStatus, Version, OutboxRow, OutboxStatus}
use seta_im_intern.Events.{Codec, EventError, marshal, event_type, schema_version}
use seta_im_intern.Jobs.Rows.{
  JobStore, attempts, JobError, job_not_claimed, no_retry_delay, version_not_found, event_not_built,
  duplicate_event, media_processing_failed_code, held_by, Times, fail_exhausted_media_job,
}

-- The primary key, and uq_media_job_outbox_unpublished_job of the migration V9: a job has at most one
-- event that is not published.
abbrev pub is_unpublished : OutboxStatus → Bool
is_unpublished OutboxStatus.published = false
is_unpublished _ = true

abbrev pub clashes_with : OutboxRow → OutboxRow → Bool
clashes_with row other =
    other.id == row.id
    || (other.job_id == row.job_id && (is_unpublished other.status && is_unpublished row.status))

-- `insertOutboxJSON` of media_repository.go, which refuses an empty event type itself.
unfoldable pub insert_outbox_json : OutboxRow → List OutboxRow → Result JobError (List OutboxRow)
insert_outbox_json row outbox = do
  refuse_if (row.event_type == 0) event_not_built
  refuse_if (any (clashes_with row) outbox) duplicate_event
  ok (outbox ++ row ∷ [])

abbrev pub built : Result EventError (List ℕ) → Result JobError (List ℕ)
built (ok value) = ok value
built (err e) = err event_not_built

abbrev pub upload_of : Option Version → ℕ
upload_of none = 0
upload_of (some v) = v.upload_id

-- The version's upload identity, with the row that carries the retry.
unfoldable pub insert_media_retry_outbox :
    Codec → ℕ → ℕ → ℕ → ℕ → Job → ℕ → ℕ → Db → Result JobError Db
unfolding insert_outbox_json marshal
insert_media_retry_outbox codec outbox_id traceparent id version_id job occurred_at next_attempt_at
      db =
    do
      let version =
          select_row db.versions version_id
            (λ v. v.org_id == job.org_id && v.asset_id == job.asset_id)
      let upload_id = upload_of version
      refuse_if (upload_id == 0) version_not_found
      payload ← built (
          marshal codec
            (record {
              event_id = outbox_id;
              event_type = 0;
              schema_version = 0;
              source = 0;
              occurred_at = occurred_at;
              org_id = job.org_id;
              traceparent = traceparent;
            })
            (record {
              asset_id = job.asset_id;
              upload_id = upload_id;
              version_id = version_id;
              job_id = id;
            }))
      outbox ←
          insert_outbox_json
            (record {
              id = outbox_id;
              job_id = id;
              event_type = event_type;
              schema_version = schema_version;
              payload = payload;
              status = OutboxStatus.pending;
              attempt_count = 0;
              next_attempt_at = next_attempt_at;
              lease_owner = none;
              lease_expires_at = none;
              last_error_code = none;
              published_at = none;
              created_at = occurred_at;
            })
            db.outbox
      ok (record db { outbox = outbox })

-- The row as it was claimed is compared with the row as it is.
abbrev pub changed : Job → Job → Bool
changed current job =
    not (current.org_id == job.org_id)
    || (not (current.asset_id == job.asset_id)
        || (not (current.version_id == job.version_id)
            || not (current.attempt_count == job.attempt_count)))

-- `delays[attemptCount - 1]`, checked against both ends.
abbrev pub retry_delay : List ℕ → ℕ → Option ℕ
retry_delay delays zero = none
retry_delay delays (suc n) = get_elem? delays n

abbrev pub requeued_job : ℕ → Job → Job
requeued_job next_attempt_at j = record j {
  status = JobStatus.queued;
  stage = none;
  next_attempt_at = next_attempt_at;
  last_error_code = some media_processing_failed_code;
  lease_owner = none;
  lease_expires_at = none;
}

module _ (codec : Codec) (store : JobStore) (at : Times) (outbox_id traceparent : ℕ) where
  -- The branch of a job with attempts left.
  unfoldable pub reschedule : ℕ → Job → Db → Option ℕ → Result JobError (Db × Bool)
  unfolding insert_media_retry_outbox
  reschedule id current db none = err no_retry_delay
  reschedule id current db (some delay) = do
    let database_now = at 1
    let next_attempt_at = database_now + delay
    let requeued = record db {
      jobs = update_row db.jobs id (λ _. true) (requeued_job next_attempt_at);
    }
    db' ←
        insert_media_retry_outbox codec outbox_id traceparent id current.version_id current
          database_now next_attempt_at requeued
    ok (db', true)

  unfoldable pub settle_locked : ℕ → Job → Db → Option Job → Result JobError (Db × Bool)
  unfolding reschedule fail_exhausted_media_job
  settle_locked id job db none = ok (db, false)
  settle_locked id job db (some current) =
      if changed current job
      then err job_not_claimed
      else if leb (attempts store) current.attempt_count
      then ok (fail_exhausted_media_job (at 1) (at 2) id current db, true)
      else reschedule id current db (retry_delay store.delays current.attempt_count)

  unfoldable pub settle_work : ℕ → Job → JobLease → Db → Result JobError (Db × Bool)
  unfolding settle_locked
  settle_work id job held db = settle_locked id job db (select_row db.jobs id (held_by held (at 0)))

  unfoldable pub settle_execution_failure : ℕ → Job → JobLease → Db → Db × Result JobError Bool
  unfolding settle_work
  settle_execution_failure id job held db = transaction (settle_work id job held) db
