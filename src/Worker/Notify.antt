-- ===== src/Worker/Notify.antt =====
-- The effect of a notification: cmd/media-worker/effect.go, and VerifyNotification of
-- repository/media_notification.go.
use seta_im_intern.Prelude.{
  ℕ, Bool, not, ◌&&◌, Option, none, some, ◌==◌, if◌then◌else◌, Result, ok, err,
}
use seta_im_intern.Media.{Db, Job, Version}
use seta_im_intern.Events.{Payload}
use seta_im_intern.Jobs.Rows.{JobStore, job_not_found}
use seta_im_intern.Consumer.Parse.{Decoder, Parsed, PayloadError, parse_payload}
use seta_im_intern.Consumer.Deliver.{ApplyError, already_applied, poison, transient}
use seta_im_intern.Worker.Job.{RunError, job_settled, store_error, Execution, Schedule, run_job}

pub data NotificationError : Type 0 where
  unknown_job notification_mismatch : NotificationError

-- Whether the payload and the organization are those of the job and of its version.
abbrev pub matches_truth : ℕ → Payload → Job → Version → Bool
matches_truth org_id payload job version =
    (job.org_id == org_id)
    && ((job.asset_id == payload.asset_id)
        && ((job.version_id == payload.version_id) && (version.upload_id == payload.upload_id)))

abbrev pub verify_joined : ℕ → Payload → Job → Option Version → Option NotificationError
verify_joined org_id payload job none = some unknown_job
verify_joined org_id payload job (some version) =
    if job.org_id == 0
    then some unknown_job
    else if not (matches_truth org_id payload job version)
    then some notification_mismatch
    else none

abbrev pub verify_row : ℕ → Payload → Db → Option Job → Option NotificationError
verify_row org_id payload db none = some unknown_job
verify_row org_id payload db (some job) =
    verify_joined org_id payload job (db.versions job.version_id)

unfoldable pub verify_notification : ℕ → Payload → Db → Option NotificationError
verify_notification org_id payload db = verify_row org_id payload db (db.jobs payload.job_id)

abbrev pub invalid_media_payload : ℕ
invalid_media_payload = 1

abbrev pub media_job_not_found : ℕ
media_job_not_found = 2

abbrev pub media_notification_mismatch : ℕ
media_notification_mismatch = 3

abbrev pub verification_error : NotificationError → ApplyError
verification_error unknown_job = poison media_job_not_found
verification_error notification_mismatch = poison media_notification_mismatch

-- Which error is returned as it is makes no difference to the consumer.
unfoldable pub run_error : RunError → ApplyError
run_error job_settled = already_applied
run_error (store_error job_not_found) = poison media_job_not_found
run_error _ = transient 0

abbrev pub after_run : Db × Result RunError (Unit {0}) → Db × Result ApplyError (Unit {0})
after_run (db, ok _) = (db, ok tt)
after_run (db, err e) = (db, err (run_error e))

module _ (decoder : Decoder) (store : JobStore) (owner : ℕ) (execution : Execution)
    (schedule : Schedule) where
  unfoldable pub apply_verified :
      Payload → Option NotificationError → Db → Db × Result ApplyError (Unit {0})
  unfolding run_job
  apply_verified payload (some e) db = (db, err (verification_error e))
  apply_verified payload none db =
      after_run (run_job decoder.codec store owner execution schedule payload.job_id db)

  -- `verifies` says whether the effect has a verifier.
  unfoldable pub apply_parsed :
      Bool → Parsed → Result PayloadError Payload → Db → Db × Result ApplyError (Unit {0})
  unfolding verify_notification apply_verified
  apply_parsed verifies parsed (err e) db = (db, err (poison invalid_media_payload))
  apply_parsed verifies parsed (ok payload) db =
      apply_verified payload
        (if verifies then verify_notification parsed.envelope.org_id payload db else none) db

  unfoldable pub apply_notification : Bool → Parsed → Db → Db × Result ApplyError (Unit {0})
  unfolding parse_payload apply_parsed
  apply_notification verifies parsed db =
      apply_parsed verifies parsed (parse_payload decoder parsed) db
