-- ===== src/Worker/Redelivery.antt =====
-- What a repeated notification does, from the record that the broker delivers to the tables.
use seta_im_intern.Prelude.{
  ℕ, is_null, ◌≡◌, ◌≢◌, ◌⊎◌, inl, inr, refl, ap, arith, ◌∙◌, true, false, Option, none, some,
  keep_if, ◌==◌, List, Bool, Bool-cases, Result, ok, err,
}
use seta_im_intern.Media.{Db, Job, Version, is_live}
use seta_im_intern.Events.{Payload}
use seta_im_intern.Jobs.Rows.{JobStore, job_terminal, job_isolated, is_open, Times}
use seta_im_intern.Jobs.Claim.{is_claimable, is_exhausted, explain, claim_job, take, recover}
use seta_im_intern.Jobs.Leases.{claim_job-live}
use seta_im_intern.Consumer.Parse.{Decoder, Parsed, parse_payload}
use seta_im_intern.Consumer.Deliver.{
  Delivery, commit_offset, leave_uncommitted, QuarantinedRecord, ConsumerOptions, Handlers,
  after_apply, deliver,
}
use seta_im_intern.Consumer.Protocol.{IsAccepted}
use seta_im_intern.Worker.Job.{Execution, Schedule, RunError, job_settled, job_unavailable, run_job}
use seta_im_intern.Worker.Notify.{verify_notification, apply_notification, matches_truth, run_error}

-- A job that is completed or failed, or whose notification was isolated.
abbrev pub IsSettled : Job → Type 0
IsSettled job = (is_open job.status ≡ false) ⊎ (job.notification_isolated_at ≢ none)

module _ (store : JobStore) (at : Times) (owner id : ℕ) (db : Db) (job : Job) where
  unclaimable_once_settled :
      (o : Option Job)
      → o ≡ some job
      → IsSettled job
      → keep_if (is_claimable store db (at 0)) o ≡ none
  unclaimable_once_settled o here settled = ground arith

  unexhausted_once_settled :
      (o : Option Job) → o ≡ some job → IsSettled job → keep_if (is_exhausted store (at 1)) o ≡ none
  unexhausted_once_settled o here settled = ground arith

  explain_settled :
      (o : Option Job)
      → o ≡ some job
      → IsSettled job
      → (explain store (at 2) o ≡ job_terminal) ⊎ (explain store (at 2) o ≡ job_isolated)
  unfolding explain
  explain_settled o here settled = elim (Bool-cases (is_null job.notification_isolated_at)) [
    | inl clear ↦ inl (ground arith)
    | inr isolated ↦ inr (ground arith)
  ]

  claim_job-settled :
      owner ≢ 0
      → db.jobs id ≡ some job
      → IsSettled job
      → (claim_job store at owner id db ≡ (db, err job_terminal))
        ⊎ (claim_job store at owner id db ≡ (db, err job_isolated))
  unfolding claim_job take recover
  claim_job-settled named here settled =
      let refused = unclaimable_once_settled (db.jobs id) here settled in
      let kept = unexhausted_once_settled (db.jobs id) here settled in
      let unnamed : (owner == 0) ≡ false = ground arith in
      elim (explain_settled (db.jobs id) here settled) [
        | inl why ↦ inl (rw (unnamed, refused, kept) (ap (λ e. (db, err e)) why))
        | inr why ↦ inr (rw (unnamed, refused, kept) (ap (λ e. (db, err e)) why))
      ]

module _ (decoder : Decoder) where
  -- The notification names a job of the tables: its identifiers are the job's and its version's.
  pub record IsTrue (p : Parsed) (payload : Payload) (db : Db) (job : Job) (version : Version)
      : Type 0 where
    pub parses : parse_payload decoder p ≡ ok payload
    pub job_found : db.jobs payload.job_id ≡ some job
    pub version_found : db.versions job.version_id ≡ some version
    pub organized : p.envelope.org_id ≢ 0
    pub agrees : matches_truth p.envelope.org_id payload job version ≡ true

  verified :
      (p : Parsed) (payload : Payload) (db : Db) (job : Job) (version : Version)
      → IsTrue p payload db job version
      → verify_notification p.envelope.org_id payload db ≡ none
  unfolding verify_notification
  verified p payload db job version t =
      let organized : (job.org_id == 0) ≡ false =
        let a = t.agrees in let o = t.organized in ground arith in
      rw (t.job_found) (rw (t.version_found) (rw (organized, t.agrees) refl))

module _ (decoder : Decoder) (store : JobStore) (owner : ℕ) (execution : Execution)
    (schedule : Schedule) where
  run_job-settled :
      (id : ℕ) (db : Db) (job : Job)
      → owner ≢ 0
      → db.jobs id ≡ some job
      → IsSettled job
      → run_job decoder.codec store owner execution schedule id db ≡ (db, err job_settled)
  unfolding run_job
  run_job-settled id db job named here settled =
      elim (claim_job-settled store schedule.claim_at owner id db job named here settled) [
        | inl e ↦ rw e refl
        | inr e ↦ rw e refl
      ]

  run_job-leased :
      (id : ℕ) (db : Db) (job : Job)
      → owner ≢ 0
      → db.jobs id ≡ some job
      → is_open job.status ≡ true
      → job.notification_isolated_at ≡ none
      → ((n : ℕ) → is_live job.lease_expires_at (schedule.claim_at n) ≡ true)
      → run_job decoder.codec store owner execution schedule id db ≡ (db, err job_unavailable)
  unfolding run_job
  run_job-leased id db job named here open' clear live =
      rw (claim_job-live store schedule.claim_at owner id db job named here open' clear live) refl

  applied_as :
      (verifies : Bool) (p : Parsed) (payload : Payload) (db : Db) (job : Job) (version : Version)
      (e : RunError)
      → IsTrue decoder p payload db job version
      → run_job decoder.codec store owner execution schedule payload.job_id db ≡ (db, err e)
      → apply_notification decoder store owner execution schedule verifies p db
        ≡ (db, err (run_error e))
  unfolding apply_notification
  applied_as true p payload db job version e t ran =
      rw (t.parses) (rw (verified decoder p payload db job version t) (rw ran refl))
  applied_as false p payload db job version e t ran = rw (t.parses) (rw ran refl)

module _ {W : Type 0} (decoder : Decoder) (digest : List ℕ → List ℕ) (options : ConsumerOptions)
    (handlers : Handlers W) where
  deliver-accepted :
      (r : Delivery) (p : Parsed) (w : W)
      → IsAccepted decoder digest options r p
      → deliver decoder digest options handlers r w
        ≡ after_apply decoder digest options handlers r p (handlers.apply p w)
  unfolding deliver
  deliver-accepted r p w accepted =
      rw (accepted.small) (rw (accepted.parses) (rw (accepted.routed) refl))

-- The consumer of the media worker: its effect on the tables, its quarantine and its clock.
abbrev pub worker_handlers :
    Decoder
    → JobStore
    → ℕ
    → Execution
    → Schedule
    → Bool
    → (QuarantinedRecord → Db → Db × Result ℕ (Unit {0}))
    → ℕ
    → Handlers Db
worker_handlers decoder store owner execution schedule verifies isolate now = record {
  apply = apply_notification decoder store owner execution schedule verifies;
  isolate = isolate;
  now = λ db. (db, now);
}

module _ (decoder : Decoder) (digest : List ℕ → List ℕ) (options : ConsumerOptions)
    (store : JobStore) (owner : ℕ) (execution : Execution) (schedule : Schedule) (verifies : Bool)
    (isolate : QuarantinedRecord → Db → Db × Result ℕ (Unit {0})) (now : ℕ) where
  -- A notification of a job that is completed, failed or isolated may be delivered any number of
  -- times: where the record is accepted and names the job truly, a delivery commits the offset and
  -- changes no table, whatever the executor would do.
  pub deliver-settled :
      (r : Delivery) (p : Parsed) (payload : Payload) (db : Db) (job : Job) (version : Version)
      → owner ≢ 0
      → IsAccepted decoder digest options r p
      → IsTrue decoder p payload db job version
      → IsSettled job
      → deliver decoder digest options
          (worker_handlers decoder store owner execution schedule verifies isolate now)
          r
          db
        ≡ (db, commit_offset)
  unfolding run_error after_apply
  deliver-settled r p payload db job version named accepted t settled =
      let ran =
        run_job-settled decoder store owner execution schedule payload.job_id db job named
          t.job_found settled in
      let effect =
        applied_as decoder store owner execution schedule verifies p payload db job version
          job_settled t ran in
      deliver-accepted decoder digest options _ r p db accepted ∙ rw effect refl

  -- A notification of an open job that another claim has leased, at each instant at which this
  -- claim looks, is not lost and does no harm: the offset is left uncommitted and no table changes.
  pub deliver-leased :
      (r : Delivery) (p : Parsed) (payload : Payload) (db : Db) (job : Job) (version : Version)
      → owner ≢ 0
      → IsAccepted decoder digest options r p
      → IsTrue decoder p payload db job version
      → is_open job.status ≡ true
      → job.notification_isolated_at ≡ none
      → ((n : ℕ) → is_live job.lease_expires_at (schedule.claim_at n) ≡ true)
      → deliver decoder digest options
          (worker_handlers decoder store owner execution schedule verifies isolate now)
          r
          db
        ≡ (db, leave_uncommitted)
  unfolding run_error after_apply
  deliver-leased r p payload db job version named accepted t open' clear live =
      let ran =
        run_job-leased decoder store owner execution schedule payload.job_id db job named
          t.job_found open' clear live in
      let effect =
        applied_as decoder store owner execution schedule verifies p payload db job version
          job_unavailable t ran in
      deliver-accepted decoder digest options _ r p db accepted ∙ rw effect refl
