-- ===== src/DeadLetters/Replay.antt =====
-- RebuildAndEnqueue of repository/media_dead_letter.go and Replay of eventing/outbox/replay.go. The new
-- event's identifier and the database's time are arguments, as are the users that it knows.
use seta_im_intern.Prelude.{
  ℕ, Bool, not, ◌&&◌, ◌||◌, Option, none, some, List, leb, length, ◌==◌, if◌then◌else◌, any,
  update_row, select_row, matches, is_null, is_value, has_key, Result, ok, err, ◌>>=◌, ◌>>◌,
  refuse_if, transaction,
}
use seta_im_intern.Media.{Db, Job, JobStatus, Version, OutboxRow, OutboxStatus}
use seta_im_intern.Events.{Codec, EventError, marshal, event_type, schema_version}
use seta_im_intern.Jobs.Rows.{JobError, duplicate_event}
use seta_im_intern.Jobs.Settle.{insert_outbox_json}
use seta_im_intern.DeadLetters.Isolate.{media_notification_isolated_code}

pub record ReplayRequest : Type 0 where
  pub quarantine_id : List ℕ
  pub job_id : ℕ
  pub operator : ℕ

pub data ReplayError : Type 0 where
  operator_required job_required invalid_quarantine_id not_isolated missing_replay_id : ReplayError
  invalid_job_identity invalid_operator_identity replay_operator_unknown : ReplayError
  truth_not_found event_refused outbox_duplicate audit_failed : ReplayError

abbrev pub row_or : {R : Type 0} → ReplayError → Option R → Result ReplayError R
row_or e none = err e
row_or e (some r) = ok r

abbrev pub event_or : {E A : Type 0} → Result E A → Result ReplayError A
event_or (ok a) = ok a
event_or (err e) = err event_refused

abbrev pub outbox_or : {A : Type 0} → Result JobError A → Result ReplayError A
outbox_or (ok a) = ok a
outbox_or (err duplicate_event) = err outbox_duplicate
outbox_or (err e) = err event_refused

abbrev pub is_isolated : Job → Bool
is_isolated j =
    not (is_null j.notification_isolated_at)
    && is_value j.last_error_code media_notification_isolated_code

abbrev pub restored_job : ℕ → Job → Job
restored_job now j = record j {
  status = JobStatus.queued;
  stage = none;
  lease_owner = none;
  lease_expires_at = none;
  next_attempt_at = now;
  last_error_code = none;
  notification_isolated_at = none;
  failed_at = none;
  queued_at = now;
}

abbrev pub replay_row : ℕ → ℕ → ℕ → List ℕ → OutboxRow
replay_row event_id now id payload = record {
  id = event_id;
  job_id = id;
  event_type = event_type;
  schema_version = schema_version;
  payload = payload;
  status = OutboxStatus.pending;
  attempt_count = 0;
  next_attempt_at = now;
  lease_owner = none;
  lease_expires_at = none;
  last_error_code = none;
  published_at = none;
  created_at = now;
}

-- A byte that strings.ToLower changes or that hex.DecodeString refuses.
abbrev pub is_lower_hex : ℕ → Bool
is_lower_hex c = (leb 48 c && leb c 57) || (leb 97 c && leb c 102)

abbrev pub is_quarantine_id : List ℕ → Bool
is_quarantine_id id = length id == 64 && not (any (λ c. not (is_lower_hex c)) id)

abbrev pub replay_result : Db × Result ReplayError ℕ → Db × Result ReplayError ℕ
replay_result (db, err e) = (db, err e)
replay_result (db, ok id) = if id == 0 then (db, err missing_replay_id) else (db, ok id)

module _ (codec : Codec) (user_refs : List ℕ) (now event_id : ℕ) where
  unfoldable pub replay_event : ℕ → Job → Version → Result EventError (List ℕ)
  unfolding marshal
  replay_event id job version =
      marshal codec
        (record {
          event_id = event_id;
          event_type = 0;
          schema_version = 0;
          source = 0;
          occurred_at = now;
          org_id = job.org_id;
          traceparent = 0;
        })
        (record {
          asset_id = job.asset_id;
          upload_id = version.upload_id;
          version_id = job.version_id;
          job_id = id;
        })

  unfoldable pub rebuild_work : ReplayRequest → Db → Result ReplayError (Db × ℕ)
  unfolding replay_event insert_outbox_json
  rebuild_work request db = do
    job ← row_or not_isolated (db.jobs request.job_id)
    refuse_if (not (is_isolated job)) not_isolated
    refuse_if (not (has_key user_refs request.operator)) replay_operator_unknown
    version ← row_or truth_not_found (
        select_row db.versions job.version_id
          (λ v. v.org_id == job.org_id && v.asset_id == job.asset_id))
    payload ← event_or (replay_event request.job_id job version)
    refuse_if (not (matches db.jobs request.job_id is_isolated)) not_isolated
    refuse_if (not (matches db.assets job.asset_id (λ a. is_null a.deleted_at))) audit_failed
    outbox ←
        outbox_or (insert_outbox_json (replay_row event_id now request.job_id payload) db.outbox)
    ok (
      record db {
        jobs = update_row db.jobs request.job_id is_isolated (restored_job now);
        assets =
            update_row db.assets job.asset_id (λ a. is_null a.deleted_at)
              (λ a. record a { updated_by = some request.operator });
        outbox = outbox;
      },
      event_id,
    )

  unfoldable pub rebuild_and_enqueue : ReplayRequest → Db → Db × Result ReplayError ℕ
  unfolding rebuild_work
  rebuild_and_enqueue request db =
      if not (codec.is_uuid request.job_id)
      then (db, err invalid_job_identity)
      else if not (codec.is_uuid request.operator)
      then (db, err invalid_operator_identity)
      else transaction (rebuild_work request) db

  unfoldable pub replay : ReplayRequest → Db → Db × Result ReplayError ℕ
  unfolding rebuild_and_enqueue
  replay request db =
      if request.operator == 0
      then (db, err operator_required)
      else if request.job_id == 0
      then (db, err job_required)
      else if not (is_quarantine_id request.quarantine_id)
      then (db, err invalid_quarantine_id)
      else replay_result (rebuild_and_enqueue request db)
