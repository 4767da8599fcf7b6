-- ===== src/Uploads/Commit.antt =====
-- CommitUpload of media_repository.go: the stored object is compared with what the session
-- declared, and the version, its job and its event are created in one transaction.
use seta_im_intern.Prelude.{
  same_bytes, ℕ, ◌-◌, ◌%◌, Bool, true, false, not, ◌&&◌, ◌||◌, Option, none, some, List, [], leb,
  ◌==◌, if◌then◌else◌, is_some, is_null, Table, put_row, update_row, matches, length, Result, ok,
  err, ◌>>=◌, ◌>>◌, refuse_if, transaction,
}
use seta_im_intern.Media.{
  Db, Session, committed, Version, VersionStatus, Job, JobStatus, Asset, OutboxRow, OutboxStatus,
  ContentType, same_type, checksum_byte_length, is_created, is_committed,
}
use seta_im_intern.Events.{Codec, EventError, marshal}
use seta_im_intern.Jobs.Rows.{JobError, duplicate_event}
use seta_im_intern.Jobs.Settle.{insert_outbox_json}
use seta_im_intern.Uploads.Rows.{
  UploadError, upload_in_progress, upload_state_conflict, upload_session_expired,
  media_object_mismatch, record_not_found, duplicate_key, event_not_built, Scope, Readings,
  lock_active_asset, has_pending_version, lock_upload_session_row, is_open_for, update_sessions,
}
use seta_im_intern.Uploads.Quota.{convert_reservation_to_stored}
use seta_im_intern.Uploads.Sessions.{get_upload_session}

pub record ObjectAttributes : Type 0 where
  pub size_bytes : ℕ
  pub content_type : ContentType
  pub checksum : List ℕ

pub record CommitIds : Type 0 where
  pub version_id : ℕ
  pub job_id : ℕ
  pub outbox_id : ℕ

pub record Acceptance : Type 0 where
  pub version_id : ℕ
  pub job_id : ℕ
  pub status : JobStatus
  pub accepted_at : ℕ

unfoldable pub verify_stored_object : Session → ObjectAttributes → Result UploadError (Unit {0})
verify_stored_object session attributes = do
  refuse_if
      (not (attributes.size_bytes == session.expected_size_bytes)
        || not (same_type attributes.content_type session.declared_content_type))
      media_object_mismatch
  refuse_if
      (not (length attributes.checksum == checksum_byte_length)
        || not (same_bytes attributes.checksum session.declared_checksum))
      media_object_mismatch

unfoldable pub session_is_committable : Session → ℕ → Result UploadError (Unit {0})
session_is_committable session now =
    if is_committed session.state
    then ok tt
    else if not (is_created session.state)
    then err upload_state_conflict
    else if leb session.session_expires_at now
    then err upload_session_expired
    else ok tt

abbrev pub is_unclaimed_in : ℕ → Asset → Bool
is_unclaimed_in org_id a =
    a.org_id == org_id && (is_null a.deleted_at && is_null a.pending_media_version_id)

unfoldable pub set_pending_media_version :
    ℕ → ℕ → ℕ → Table Asset → Result UploadError (Table Asset)
set_pending_media_version org_id asset_id version_id assets =
    if matches assets asset_id (is_unclaimed_in org_id)
    then ok (
        update_row assets asset_id (is_unclaimed_in org_id)
          (λ a. record a { pending_media_version_id = some version_id }))
    else err upload_in_progress

abbrev pub row_or_refuse : {R : Type 0} → Option R → Result UploadError R
row_or_refuse none = err record_not_found
row_or_refuse (some r) = ok r

abbrev with_upload_error : {E A : Type 0} → Result E A → Result UploadError A
with_upload_error (ok a) = ok a
with_upload_error (err e) = err event_not_built

abbrev enqueued : {A : Type 0} → Result JobError A → Result UploadError A
enqueued (ok a) = ok a
enqueued (err duplicate_event) = err duplicate_key
enqueued (err e) = err event_not_built

-- An instant as a column of type timestamptz keeps it: in microseconds.
abbrev pub timestamptz : ℕ → ℕ
timestamptz t = t - t % 1000

unfoldable pub accepted_version : CommitIds → ℕ → Session → ObjectAttributes → Version
accepted_version ids now locked attributes = record {
  org_id = locked.org_id;
  asset_id = locked.asset_id;
  upload_id = locked.id;
  requested_by = locked.requested_by;
  status = VersionStatus.pending;
  raw_object_key = locked.raw_object_key;
  raw_retained = true;
  declared_content_type = locked.declared_content_type;
  detected_content_type = none;
  original_size_bytes = attributes.size_bytes;
  sha256 = [];
  source_width = none;
  source_height = none;
  failure_code = none;
  completed_at = none;
  failed_at = none;
  activated_at = none;
  created_at = timestamptz now;
}

unfoldable pub accepted_job : CommitIds → ℕ → Session → Job
accepted_job ids now locked = record {
  org_id = locked.org_id;
  asset_id = locked.asset_id;
  version_id = ids.version_id;
  status = JobStatus.queued;
  stage = none;
  attempt_count = 0;
  next_attempt_at = now;
  lease_owner = none;
  lease_expires_at = none;
  last_error_code = none;
  notification_isolated_at = none;
  queued_at = now;
  started_at = none;
  completed_at = none;
  failed_at = none;
}

-- Primary keys and the unique indexes on upload_id and version_id.
unfoldable pub insert_version : ℕ → Version → Db → Result UploadError Db
insert_version id version db =
    if is_some (db.versions id) || is_some (db.version_by_upload version.upload_id)
    then err duplicate_key
    else ok (record db {
      versions = put_row db.versions id version;
      version_by_upload = put_row db.version_by_upload version.upload_id id;
    })

unfoldable pub insert_job : ℕ → Job → Db → Result UploadError Db
insert_job id job db =
    if is_some (db.jobs id) || is_some (db.job_by_version job.version_id)
    then err duplicate_key
    else ok (record db {
      jobs = put_row db.jobs id job;
      job_by_version = put_row db.job_by_version job.version_id id;
    })

abbrev pub committed_session : ℕ → Session → Session
committed_session now s = record s { state = committed; committed_at = some now; updated_at = now }

module _ (codec : Codec) (traceparent : ℕ) (ids : CommitIds) where
  unfoldable pub accepted_outbox_row : ℕ → Session → Result EventError OutboxRow
  unfolding marshal
  accepted_outbox_row now locked = do
    payload ←
        marshal codec
          (record {
            event_id = ids.outbox_id;
            event_type = 0;
            schema_version = 0;
            source = 0;
            occurred_at = now;
            org_id = locked.org_id;
            traceparent = traceparent;
          })
          (record {
            asset_id = locked.asset_id;
            upload_id = locked.id;
            version_id = ids.version_id;
            job_id = ids.job_id;
          })
    ok (record {
      id = ids.outbox_id;
      job_id = ids.job_id;
      event_type = 1;
      schema_version = 1;
      payload = payload;
      status = OutboxStatus.pending;
      attempt_count = 0;
      next_attempt_at = now;
      lease_owner = none;
      lease_expires_at = none;
      last_error_code = none;
      published_at = none;
      created_at = now;
    })

  -- The rows of an upload that is accepted.
  unfoldable pub accept_upload : ℕ → Session → ObjectAttributes → Db → Result UploadError Db
  unfolding accepted_version accepted_job insert_version insert_job set_pending_media_version
      convert_reservation_to_stored accepted_outbox_row insert_outbox_json
  accept_upload now locked attributes db = do
    versioned ← insert_version ids.version_id (accepted_version ids now locked attributes) db
    queued ← insert_job ids.job_id (accepted_job ids now locked) versioned
    assets ← set_pending_media_version locked.org_id locked.asset_id ids.version_id queued.assets
    let converted =
        convert_reservation_to_stored locked.org_id locked.expected_size_bytes attributes.size_bytes
          (record queued { assets = assets })
    row ← with_upload_error (accepted_outbox_row now locked)
    outbox ← enqueued (insert_outbox_json row converted.outbox)
    ok (record converted {
      sessions = update_sessions (is_open_for locked.id) (committed_session now) converted.sessions;
      outbox = outbox;
    })

unfoldable pub replay_commit : Session → Db → Result UploadError (Db × (Acceptance × Bool))
replay_commit locked db = do
  version_id ← row_or_refuse (db.version_by_upload locked.id)
  version ← row_or_refuse (db.versions version_id)
  job_id ← row_or_refuse (db.job_by_version version_id)
  ok (
    db,
    (
      record {
        version_id = version_id;
        job_id = job_id;
        status = JobStatus.queued;
        accepted_at = version.created_at;
      },
      true,
    ),
  )

module _ (codec : Codec) (at : Readings) (traceparent : ℕ) (ids : CommitIds) (scope : Scope)
    (attributes : ObjectAttributes) where
  -- The commit of a session that no commit has taken.
  unfoldable pub commit_open : Asset → Session → Db → Result UploadError (Db × (Acceptance × Bool))
  unfolding session_is_committable verify_stored_object accept_upload
  commit_open asset locked db = do
    session_is_committable locked (at 1)
    verify_stored_object locked attributes
    refuse_if (has_pending_version asset) upload_in_progress
    accepted ← accept_upload codec traceparent ids (at 2) locked attributes db
    ok (
      accepted,
      (
        record {
          version_id = ids.version_id;
          job_id = ids.job_id;
          status = JobStatus.queued;
          accepted_at = at 2;
        },
        false,
      ),
    )

  unfoldable pub commit_locked :
      Asset → Session → Db → Result UploadError (Db × (Acceptance × Bool))
  unfolding replay_commit commit_open
  commit_locked asset locked db =
      if is_committed locked.state then replay_commit locked db else commit_open asset locked db

  unfoldable pub commit_work : Db → Result UploadError (Db × (Acceptance × Bool))
  unfolding lock_active_asset lock_upload_session_row commit_locked
  commit_work db = do
    usage ← row_or_refuse (db.usage scope.org_id)
    asset ← lock_active_asset scope.org_id scope.asset_id db
    locked ← lock_upload_session_row scope db
    commit_locked asset locked db

  abbrev verify_unless_committed : Session → Result UploadError (Unit {0})
  verify_unless_committed session =
      if is_committed session.state then ok tt else verify_stored_object session attributes

  abbrev pub after_first_read :
      Result UploadError (Unit {0}) → Db → Db × Result UploadError (Acceptance × Bool)
  after_first_read (err e) db = (db, err e)
  after_first_read (ok _) db = transaction commit_work db

  -- `seen` is the database at the first read, outside the transaction.
  unfoldable pub commit_upload : Db → Db → Db × Result UploadError (Acceptance × Bool)
  unfolding get_upload_session verify_stored_object commit_work
  commit_upload seen db =
      after_first_read (get_upload_session (at 0) scope seen >>= verify_unless_committed) db
