-- ===== src/JobTests.antt =====
-- Runs of the job store on a small database, and the theorems about it at those inputs.
use seta_im_intern.Prelude.{
  ℕ, ◌≤◌, ◌<◌, ◌≡◌, ◌↔◌, refl, subst, inl, inr, Bool-cases, true, false, none, some, [], ◌∷◌, arith,
  ◌==◌, no_rows, put_row, matches, ok, err,
}
use seta_im_intern.Media.{
  Db, Job, OutputKind, JobLease, JobStatus, Version, VersionStatus, Asset, Output, png, thumbnail,
  web,
}
use seta_im_intern.Events.{Codec}
use seta_im_intern.Jobs.Rows.{JobStore, job_leased, lease_not_held, held_by, Times, MediaFailure}
use seta_im_intern.Jobs.Claim.{claim_job, claim_of}
use seta_im_intern.Jobs.Renew.{renew_lease}
use seta_im_intern.Jobs.Settle.{settle_execution_failure}
use seta_im_intern.Jobs.Promote.{
  MediaCompletion, has_kind, require_complete_output_set, complete_and_promote, fail_version,
}
use seta_im_intern.Jobs.Runs.{
  claim, settle, Run, here, next, Step-Moves, IsSound, IsSoundDb, Run-IsSound, Run-attempt_count,
  Run-closed,
}
use seta_im_intern.Jobs.Moves.{Moves}
use seta_im_intern.Jobs.Leases.{claim_job-live, claim_job-only_lease, replaced_lease_is_fenced}
use seta_im_intern.Jobs.Outputs.{AreDistinct, kinds, require_complete_output_set_iff}
use seta_im_intern.Jobs.Atomic.{
  IsPromoted, complete_and_promote-unapplied, complete_and_promote-applied,
}

abbrev pub store : JobStore
store = record { lease_expiry = 40; delays = 2 ∷ 10 ∷ [] }

-- Every text is a UUID, and the encoder writes the identifiers.
abbrev pub codec : Codec
codec = record {
  is_uuid = λ n. true;
  encode = λ e p. e.event_id ∷ p.asset_id ∷ p.upload_id ∷ p.version_id ∷ p.job_id ∷ [];
}

abbrev pub queued_job : Job
queued_job = record {
  org_id = 5;
  asset_id = 10;
  version_id = 20;
  status = JobStatus.queued;
  stage = none;
  attempt_count = 0;
  next_attempt_at = 100;
  lease_owner = none;
  lease_expires_at = none;
  last_error_code = none;
  notification_isolated_at = none;
  queued_at = 100;
  started_at = none;
  completed_at = none;
  failed_at = none;
}

abbrev pub version : Version
version = record {
  org_id = 5;
  asset_id = 10;
  upload_id = 30;
  requested_by = 7;
  status = VersionStatus.pending;
  raw_object_key = 40;
  raw_retained = true;
  declared_content_type = png;
  detected_content_type = none;
  original_size_bytes = 1000;
  sha256 = [];
  source_width = none;
  source_height = none;
  failure_code = none;
  completed_at = none;
  failed_at = none;
  activated_at = none;
  created_at = 90;
}

abbrev pub asset : Asset
asset = record {
  org_id = 5;
  active_media_version_id = none;
  pending_media_version_id = some 20;
  deleted_at = none;
  folder_deleted_at = none;
  updated_by = none;
}

abbrev pub db_with : Job → Db
db_with j = record {
  usage = no_rows;
  sessions = [];
  versions = put_row no_rows 20 version;
  jobs = put_row no_rows 1 j;
  assets = put_row no_rows 10 asset;
  outputs = [];
  outbox = [];
  version_by_upload = put_row no_rows 30 20;
  job_by_version = put_row no_rows 20 1;
}

abbrev pub start : Db
start = db_with queued_job

-- Every statement of the transaction at one time.
abbrev pub at_time : ℕ → Times
at_time t n = t

abbrev pub started : Db
started = (claim_job store (at_time 100) 8 1 start).0

abbrev pub lease : JobLease
lease = record { owner = 8; expires_at = 140 }

claim_succeeds :
    claim_job store (at_time 100) 8 1 start ≡ (started, ok (claim_of store 8 100 queued_job))
unfolding claim_job
claim_succeeds = refl

abbrev retried : Db
retried =
    (settle_execution_failure codec store (at_time 110) 50 0 1 (claim_of store 8 100 queued_job).job
      lease started).0

retry_succeeds :
    settle_execution_failure codec store
      (at_time 110)
      50
      0
      1
      (claim_of store 8 100 queued_job).job
      lease
      started
    ≡ (retried, ok true)
unfolding settle_execution_failure claim_job
retry_succeeds = refl

queued_job-IsSound : IsSound store queued_job
queued_job-IsSound = ground arith

start-IsSound : IsSoundDb store start
start-IsSound k r e = elim (Bool-cases (1 == k)) [
  | inl same ↦ let q : queued_job ≡ r = ground arith in subst (IsSound store) q queued_job-IsSound
  | inr other ↦ absurd (let f = rw other at e in cc)
]

retry-Run : Run codec store start retried
retry-Run =
    next (next here (claim (at_time 100) 8 1 refl))
      (settle (at_time 110) 50 0 1 (claim_of store 8 100 queued_job).job lease refl)

Step-Moves_example : Moves store start started
Step-Moves_example = Step-Moves codec store (claim (at_time 100) 8 1 refl)

Run-IsSound_example : IsSoundDb store retried
Run-IsSound_example = Run-IsSound codec store retry-Run start-IsSound

Run-attempt_count_example :
    (j' : Job) × (retried.jobs 1 ≡ some j') × (queued_job.attempt_count ≤ j'.attempt_count)
Run-attempt_count_example = Run-attempt_count codec store retry-Run 1 queued_job refl

abbrev pub completed_row : Job
completed_row = record queued_job { status = JobStatus.completed; completed_at = some 99 }

Run-closed_example :
    (claim_job store (at_time 100) 8 1 (db_with completed_row)).0.jobs 1 ≡ some completed_row
Run-closed_example =
    Run-closed codec store {db = db_with completed_row} (next here (claim (at_time 100) 8 1 refl)) 1
      completed_row refl refl

claim_job-live_example : claim_job store (at_time 120) 9 1 started ≡ (started, err job_leased)
unfolding claim_job
claim_job-live_example =
    claim_job-live store (at_time 120) 9 1 started (claim_of store 8 100 queued_job).job
      (λ e. omega arith) refl refl refl (λ n. refl)

claim_job-only_lease_example :
    (matches started.jobs 1 (held_by lease 120) ≡ true) ↔ ((lease ≡ lease) × (120 < 140))
unfolding claim_job
claim_job-only_lease_example =
    claim_job-only_lease store (at_time 100) 8 1 start started (claim_of store 8 100 queued_job)
      claim_succeeds lease 120

abbrev old_lease : JobLease
old_lease = record { owner = 9; expires_at = 99 }

abbrev failure : MediaFailure
failure = record { job_id = 1; version_id = 20; org_id = 5; asset_id = 10; error_code = 3 }

abbrev output : OutputKind → Output
output k = record {
  version_id = 20;
  kind = k;
  object_key = 60;
  content_type = png;
  width = 100;
  height = 80;
  size_bytes = 500;
  sha256 = [];
}

abbrev pub completion : MediaCompletion
completion = record {
  job_id = 1;
  version_id = 20;
  org_id = 5;
  asset_id = 10;
  detected_content_type = png;
  source_width = 1000;
  source_height = 800;
  source_sha256 = [];
  outputs = output thumbnail ∷ output web ∷ [];
}

replaced_lease_is_fenced_example :
    (renew_lease store 105 1 old_lease started ≡ (started, err lease_not_held))
    × (settle_execution_failure codec store (at_time 105) 50 0 1 queued_job old_lease started
        ≡ (started, ok false))
    × (fail_version (at_time 105) failure old_lease started ≡ (started, ok false))
    × ((complete_and_promote (at_time 105) completion old_lease started).0 ≡ started)
unfolding claim_of
replaced_lease_is_fenced_example =
    replaced_lease_is_fenced codec store (at_time 100) 8 1 start started
      (claim_of store 8 100 queued_job) old_lease claim_succeeds (λ e. ground arith) (at_time 105)
      50 0 queued_job failure completion refl refl

require_complete_output_set_iff_example :
    (require_complete_output_set completion.outputs ≡ ok tt) ↔ (
      AreDistinct (kinds completion.outputs)
      × (has_kind thumbnail (kinds completion.outputs) ≡ true)
      × (has_kind web (kinds completion.outputs) ≡ true))
require_complete_output_set_iff_example = require_complete_output_set_iff completion.outputs

complete_and_promote-unapplied_example :
    (complete_and_promote (at_time 105) completion old_lease started).0 ≡ started
unfolding complete_and_promote claim_job
complete_and_promote-unapplied_example =
    complete_and_promote-unapplied (at_time 105) completion old_lease started (λ e. cc)

complete_and_promote-applied_example :
    IsPromoted
      (at_time 105)
      completion
      started
      (complete_and_promote (at_time 105) completion lease started).0
unfolding complete_and_promote claim_job
complete_and_promote-applied_example =
    complete_and_promote-applied (at_time 105) completion lease started refl
