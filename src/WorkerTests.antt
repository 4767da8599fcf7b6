-- ===== src/WorkerTests.antt =====
-- A worker that processes the notification of one job, and the theorems about the worker at it.
use seta_im_intern.Prelude.{
  ℕ, ◌≡◌, refl, Bool, true, false, Option, none, some, List, [], ◌∷◌, arith, inl, Result, ok, err,
}
use seta_im_intern.Media.{Db, Job, JobStatus, JobLease}
use seta_im_intern.Events.{Envelope, Payload}
use seta_im_intern.Jobs.Claim.{claim_of, claim_job}
use seta_im_intern.Jobs.Renew.{renew_lease}
use seta_im_intern.Jobs.Promote.{complete_and_promote}
use seta_im_intern.Consumer.Parse.{Decoder, Parsed, parse, parse_payload}
use seta_im_intern.Consumer.Deliver.{
  Delivery, commit_offset, leave_uncommitted, poison, QuarantinedRecord, ConsumerOptions, classify,
  deliver,
}
use seta_im_intern.Consumer.Protocol.{IsAccepted}
use seta_im_intern.Worker.Lease.{tick, Activity, keeps, works, Held, renewing, hold}
use seta_im_intern.Worker.Job.{Execution, Schedule, RunError, lease_lost, run_job}
use seta_im_intern.Worker.Notify.{notification_mismatch, verify_notification, apply_notification}
use seta_im_intern.Worker.Fenced.{IsReplaced, run_job-fenced}
use seta_im_intern.Worker.Redelivery.{IsTrue, worker_handlers, deliver-settled, deliver-leased}
use seta_im_intern.JobTests.{
  store, codec, queued_job, version, db_with, start, at_time, completion, completed_row,
}

abbrev envelope : Envelope
envelope = record {
  event_id = 11;
  event_type = 1;
  schema_version = 1;
  source = 1;
  occurred_at = 40;
  org_id = 5;
  traceparent = 0;
}

abbrev payload : Payload
payload = record { asset_id = 10; upload_id = 30; version_id = 20; job_id = 1 }

abbrev decoder : Decoder
decoder = record {
  codec = codec;
  decode_envelope = λ bytes. some envelope;
  decode_payload = λ bytes. some payload;
  is_object = λ bytes. true;
  decode_field = λ bytes field. some 1;
}

abbrev parsed : Parsed
parsed = record { envelope = envelope; raw = 7 ∷ [] }

abbrev delivery : Delivery
delivery = record { topic = 1; partition = 2; offset = 3; key = 1; value = 7 ∷ [] }

abbrev options : ConsumerOptions
options = record {
  max_value_bytes = 3;
  known_versions = 1 ∷ [];
  routable_types = 1 ∷ [];
  aggregate_field = 4;
}

abbrev digest : List ℕ → List ℕ
digest bytes = bytes

abbrev isolate : QuarantinedRecord → Db → Db × Result ℕ (Unit {0})
isolate q db = (db, ok tt)

-- The lease is renewed once, and then the work completes the job under the renewed lease.
abbrev completing : JobLease → Db → Db
completing held db = (complete_and_promote (at_time 130) completion held db).0

abbrev activities : List Activity
activities = keeps (tick 120) ∷ works completing ∷ []

abbrev execution_of : List Activity → Bool → Execution
execution_of activities failed = record {
  activities = λ job. activities;
  failed = λ job db. failed;
  late = [];
  later = [];
}

abbrev schedule : Schedule
schedule = record {
  claim_at = at_time 100;
  settle_at = at_time 150;
  outbox_id = 50;
  traceparent = 0;
}

abbrev status_of : Option Job → Option JobStatus
status_of none = none
status_of (some job) = some job.status

abbrev outcome : Db × Result RunError (Unit {0}) → Option JobStatus × Result RunError (Unit {0})
outcome (db, result) = (status_of (db.jobs 1), result)

completes :
    outcome (run_job codec store 8 (execution_of activities false) schedule 1 start)
    ≡ (some JobStatus.completed, ok tt)
unfolding run_job renew_lease complete_and_promote
completes = refl

-- The retry is dated within the renewed lease.
requeues :
    outcome (run_job codec store 8 (execution_of (keeps (tick 120) ∷ []) true) schedule 1 start)
    ≡ (some JobStatus.queued, ok tt)
unfolding run_job renew_lease
requeues = refl

-- A renewal after the lease's end loses it, and the job is left as it was.
abandons :
    outcome (run_job codec store 8 (execution_of (keeps (tick 141) ∷ []) true) schedule 1 start)
    ≡ (some JobStatus.processing, err lease_lost)
unfolding run_job renew_lease
abandons = refl

mismatches : verify_notification 6 payload start ≡ some notification_mismatch
unfolding verify_notification
mismatches = refl

unknown :
    (apply_notification decoder store 8
      (execution_of [] false)
      schedule
      true
      parsed
      (record start { jobs = λ k. none })).1
    ≡ err (poison 2)
unfolding apply_notification
unknown = refl

-- During the work another worker claims the job, whose lease has ended.
abbrev overtaken : Execution
overtaken = execution_of (works (λ held db. (claim_job store (at_time 200) 9 1 db).0) ∷ []) true

abbrev claimed : Db
claimed = (claim_job store (at_time 100) 8 1 start).0

abbrev held : Held
held = record {
  db = (claim_job store (at_time 200) 9 1 claimed).0;
  current = (claim_of store 8 100 queued_job).lease;
  keeper = renewing;
}

claims_first :
    claim_job store (at_time 100) 8 1 start ≡ (claimed, ok (claim_of store 8 100 queued_job))
unfolding claim_job claim_of
claims_first = refl

holds :
    hold store 1 (overtaken.activities (claim_of store 8 100 queued_job).job) (record {
      db = claimed;
      current = (claim_of store 8 100 queued_job).lease;
      keeper = renewing;
    })
    ≡ held
unfolding hold
holds = refl

is_replaced : IsReplaced 1 held
unfolding claim_job claim_of
is_replaced t = refl

run_job-fenced_example :
    run_job codec store 8 overtaken schedule 1 start ≡ (held.db, err lease_lost)
run_job-fenced_example =
    run_job-fenced codec store 8 overtaken schedule 1 start claimed
      (claim_of store 8 100 queued_job) held claims_first holds is_replaced

accepted : IsAccepted decoder digest options delivery parsed
unfolding parse classify
accepted = record { small = refl; parses = refl; routed = refl }

names_completed : IsTrue decoder parsed payload (db_with completed_row) completed_row version
unfolding parse_payload
names_completed = record {
  parses = refl;
  job_found = refl;
  version_found = refl;
  organized = λ e. omega arith;
  agrees = refl;
}

deliver-settled_example :
    deliver decoder digest options
      (worker_handlers decoder store 8 (execution_of activities false) schedule true isolate 50)
      delivery
      (db_with completed_row)
    ≡ (db_with completed_row, commit_offset)
deliver-settled_example =
    deliver-settled decoder digest options store 8 (execution_of activities false) schedule true
      isolate 50 delivery parsed payload (db_with completed_row) completed_row version
      (λ e. omega arith) accepted names_completed (inl refl)

names_started :
    IsTrue decoder parsed payload
      (db_with (claim_of store 8 100 queued_job).job)
      (claim_of store 8 100 queued_job).job
      version
unfolding parse_payload claim_of
names_started = record {
  parses = refl;
  job_found = refl;
  version_found = refl;
  organized = λ e. omega arith;
  agrees = refl;
}

deliver-leased_example :
    deliver decoder digest options
      (worker_handlers decoder store 9 (execution_of activities false) schedule true isolate 50)
      delivery
      (db_with (claim_of store 8 100 queued_job).job)
    ≡ (db_with (claim_of store 8 100 queued_job).job, leave_uncommitted)
unfolding claim_of
deliver-leased_example =
    deliver-leased decoder digest options store 9 (execution_of activities false) schedule true
      isolate 50 delivery parsed payload (db_with (claim_of store 8 100 queued_job).job)
      (claim_of store 8 100 queued_job).job version (λ e. omega arith) accepted names_started refl
      refl (λ n. refl)
