-- ===== src/DeadLetterTests.antt =====
-- Isolations and replays on a small database, and the theorems about them there.
use seta_im_intern.Prelude.{ℕ, ◌≡◌, refl, some, List, [], ◌∷◌, ◌++◌, Result, err, arith}
use seta_im_intern.Media.{Db, Job, JobStatus}
use seta_im_intern.Jobs.Rows.{job_exhausted}
use seta_im_intern.Jobs.Claim.{claim_job}
use seta_im_intern.DeadLetters.Isolate.{isolate_notification}
use seta_im_intern.DeadLetters.Replay.{
  ReplayRequest, replay, ReplayError, replay_event, not_isolated, outbox_duplicate,
  invalid_quarantine_id, replay_row,
}
use seta_im_intern.DeadLetters.RoundTrip.{IsReplayable, claim_job-replay}
use seta_im_intern.JobTests.{store, codec, queued_job, version, asset, start, at_time, db_with}

abbrev sixty_four : List ℕ
sixty_four =
    let four = 48 ∷ 57 ∷ 97 ∷ 102 ∷ [] in
    let sixteen = four ++ four ++ four ++ four in sixteen ++ sixteen ++ sixteen ++ sixteen

abbrev request : ReplayRequest
request = record { quarantine_id = sixty_four; job_id = 1; operator = 7 }

refuses_unisolated : replay codec (7 ∷ []) 200 70 request start ≡ (start, err not_isolated)
unfolding replay
refuses_unisolated = refl

refuses_upper_case :
    replay codec (7 ∷ []) 200 70 (record request { quarantine_id = 65 ∷ [] }) start
    ≡ (start, err invalid_quarantine_id)
unfolding replay
refuses_upper_case = refl

-- A job under the lease of its last attempt.
abbrev last_attempt : Job
last_attempt = record queued_job {
  attempt_count = 3;
  status = JobStatus.processing;
  lease_owner = some 8;
  lease_expires_at = some 190;
}

is_replayable :
    IsReplayable codec
      (7 ∷ [])
      200
      70
      request
      (db_with last_attempt)
      last_attempt
      version
      asset
      (70 ∷ 10 ∷ 30 ∷ 20 ∷ 1 ∷ [])
unfolding replay_event
is_replayable = record {
  is_row = refl;
  opened = refl;
  not_isolated_yet = refl;
  is_version = refl;
  same_org = refl;
  same_asset = refl;
  is_asset = refl;
  undeleted = refl;
  operator_known = refl;
  operator_is_uuid = refl;
  job_is_uuid = refl;
  operator_given = refl;
  job_given = refl;
  quarantine_given = refl;
  event_given = refl;
  no_event = refl;
  is_built = refl;
}

abbrev after : Db × Result ReplayError ℕ
after = replay codec (7 ∷ []) 200 70 request (isolate_notification 150 1 (db_with last_attempt))

claim_job-replay_example : (claim_job store (at_time 250) 8 1 after.0).1 ≡ err job_exhausted
claim_job-replay_example =
    claim_job-replay codec (7 ∷ []) 150 200 70 request (db_with last_attempt) last_attempt version
      asset (70 ∷ 10 ∷ 30 ∷ 20 ∷ 1 ∷ []) is_replayable store (at_time 250) 8 refl (omega arith)

-- The retry of the job is still waiting: the replay rolls back.
abbrev waiting : Db
waiting = record (isolate_notification 150 1 (db_with last_attempt)) {
  outbox = replay_row 69 140 1 [] ∷ [];
}

refuses_second_event :
    replay codec (7 ∷ []) 200 70 request waiting ≡ (waiting, err outbox_duplicate)
unfolding replay isolate_notification
refuses_second_event = refl
