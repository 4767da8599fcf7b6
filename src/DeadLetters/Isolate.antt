-- ===== src/DeadLetters/Isolate.antt =====
-- IsolateNotification of repository/media_dead_letter.go, and the quarantine of
-- eventing/media/dead_letter.go over it and a broker. The JSON encoder is an argument.
use seta_im_intern.Prelude.{
  ℕ, Bool, ◌&&◌, none, some, List, ltb, length, ◌==◌, if◌then◌else◌, update_row, is_null, Result,
  ok, err,
}
use seta_im_intern.Media.{Db, Job, JobStatus}
use seta_im_intern.Jobs.Rows.{is_open}
use seta_im_intern.Jobs.Claim.{or_else}
use seta_im_intern.Consumer.Deliver.{QuarantinedRecord, Reason}

abbrev pub media_notification_isolated_code : ℕ
media_notification_isolated_code = 2

abbrev pub is_isolatable : Job → Bool
is_isolatable j = is_open j.status && is_null j.notification_isolated_at

abbrev pub isolated_job : ℕ → Job → Job
isolated_job now j = record j {
  status = JobStatus.failed;
  stage = none;
  lease_owner = none;
  lease_expires_at = none;
  last_error_code = some media_notification_isolated_code;
  notification_isolated_at = some now;
  failed_at = or_else j.failed_at now;
}

unfoldable pub isolate_notification : ℕ → ℕ → Db → Db
isolate_notification now id db = record db {
  jobs = update_row db.jobs id is_isolatable (isolated_job now);
}

abbrev pub max_dead_letter_bytes : ℕ
max_dead_letter_bytes = 1024

pub record DeadLetterRecord : Type 0 where
  pub source_topic : ℕ
  pub source_partition : ℕ
  pub source_offset : ℕ
  pub quarantine_id : List ℕ
  pub event_id : ℕ
  pub job_id : ℕ
  pub observed_at : ℕ
  pub reason_code : Reason
  pub payload_sha256 : List ℕ

pub data DeadLetterError : Type 0 where
  dead_letter_too_large : DeadLetterError
  publish_failed : ℕ → DeadLetterError

abbrev pub published_dead_letter : Result ℕ (Unit {0}) → Result DeadLetterError (Unit {0})
published_dead_letter (ok u) = ok u
published_dead_letter (err e) = err (publish_failed e)

module _ {W : Type 0} (is_uuid : ℕ → Bool) (encode : DeadLetterRecord → List ℕ)
    (publish : ℕ → List ℕ → List ℕ → W → W × Result ℕ (Unit {0})) (topic : ℕ) where
  abbrev pub validated_uuid : ℕ → ℕ
  validated_uuid value = if is_uuid value then value else 0

  abbrev pub dead_letter_of : QuarantinedRecord → DeadLetterRecord
  dead_letter_of q = record {
    source_topic = q.source_topic;
    source_partition = q.source_partition;
    source_offset = q.source_offset;
    quarantine_id = q.quarantine_id;
    event_id = validated_uuid q.event_id;
    job_id = validated_uuid q.aggregate_id;
    observed_at = q.observed_at;
    reason_code = q.reason_code;
    payload_sha256 = q.payload_sha256;
  }

  -- The isolation is committed before the record is published.
  unfoldable pub isolate_dead_letter :
      ℕ → QuarantinedRecord → Db × W → (Db × W) × Result DeadLetterError (Unit {0})
  unfolding isolate_notification
  isolate_dead_letter now q (db, w) =
      let job_id = validated_uuid q.aggregate_id in
      let db' = if job_id == 0 then db else isolate_notification now job_id db in
      let payload = encode (dead_letter_of q) in
      if ltb max_dead_letter_bytes (length payload)
      then ((db', w), err dead_letter_too_large)
      else let (w', result) = publish topic q.quarantine_id payload w in
        ((db', w'), published_dead_letter result)
