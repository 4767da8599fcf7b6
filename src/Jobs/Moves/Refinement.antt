-- ===== src/Jobs/Moves/Refinement.antt =====
-- Every operation of the job store moves each row as the state machine allows.
use seta_im_intern.Prelude.{
  ℕ, ◌+◌, ◌<◌, ◌≡◌, refl, sym, subst, Bool, true, false, Option, none, some, inl, inr, arith, leb,
  ◌==◌, if◌then◌else◌, Bool-cases, select_row, select_row-eq-some, matches, is_some, keep_if, Table,
  update_row, Result, ok, err, transaction-P, Commits, Commits-if, Commits-bind, Commits-ok,
  Commits-err,
}
use seta_im_intern.Media.{Db, Job, JobLease}
use seta_im_intern.Events.{Codec}
use seta_im_intern.Jobs.Rows.{
  JobStore, attempts, JobError, media_processing_failed_code, held_by, Times, MediaFailure,
  failed_job, fail_media_version, fail_exhausted_media_job,
}
use seta_im_intern.Jobs.Claim.{
  take, recover, recover_or_explain, is_claimable, is_exhausted, claimed_job, claim_job,
}
use seta_im_intern.Jobs.Renew.{renew_lease}
use seta_im_intern.Jobs.Settle.{
  requeued_job, insert_media_retry_outbox, reschedule, changed, settle_locked,
  settle_execution_failure,
}
use seta_im_intern.Jobs.Promote.{
  MediaCompletion, completed_job, complete_checked, complete_work, complete_and_promote,
  fail_version,
}
use seta_im_intern.Jobs.Moves.{
  claims, renews, requeues, fails, completes, RowMove, Moves, RowMove-refl, RowMove-update_row,
}
use seta_im_intern.Jobs.Rows.{is_processing}

module _ (store : JobStore) where
  pub Moves-refl : (db : Db) → Moves store db db
  Moves-refl db i = RowMove-refl store (db.jobs i)

  -- The job that fails is one that is processing.
  pub Moves-fail_media_version :
      (t u : ℕ) (failure : MediaFailure) (db : Db)
      → ((j : Job) → db.jobs failure.job_id ≡ some j → is_processing j.status ≡ true)
      → Moves store db (fail_media_version t u failure db)
  unfolding fail_media_version
  Moves-fail_media_version t u failure db busy =
      RowMove-update_row store db.jobs failure.job_id (λ _. true) (failed_job failure.error_code u)
        (λ j e _. fails failure.error_code u (busy j e) refl)

  Moves-fail_exhausted :
      (t u id : ℕ) (job : Job) (db : Db)
      → db.jobs id ≡ some job
      → is_processing job.status ≡ true
      → Moves store db (fail_exhausted_media_job t u id job db)
  unfolding fail_exhausted_media_job
  Moves-fail_exhausted t u id job db here busy =
      Moves-fail_media_version t u
        (record {
          job_id = id;
          version_id = job.version_id;
          org_id = job.org_id;
          asset_id = job.asset_id;
          error_code = media_processing_failed_code;
        })
        db (λ j e. ground arith)

  -- Leasing an exhausted row and failing it is one failure.
  recovered_row :
      (at : Times) (owner id : ℕ) (db : Db) (j : Job) (i : ℕ)
      → db.jobs id ≡ some j
      → is_exhausted store (at 1) j ≡ true
      → RowMove store (db.jobs i) (
          update_row
            (update_row db.jobs id (is_exhausted store (at 1)) (λ r. record r {
              lease_owner = some owner;
              lease_expires_at = some (at 1 + store.lease_expiry);
            }))
            id
            (λ _. true)
            (failed_job media_processing_failed_code (at 3))
            i)
  recovered_row at owner id db j i here spent = elim (Bool-cases (id == i)) [
    | inl same ↦
        let q : id ≡ i = ground arith in
        rw (same, ← q, here, spent) (fails media_processing_failed_code (at 3) (ground arith) refl)
    | inr other ↦ rw other (RowMove-refl store (db.jobs i))
  ]

  recovered :
      (at : Times) (owner id : ℕ) (db : Db) (o : Option Job)
      → ((j : Job) → o ≡ some j → (db.jobs id ≡ some j) × (is_exhausted store (at 1) j ≡ true))
      → Commits
          (Moves store db)
          (recover_or_explain store at owner id db (recover store at owner id db o))
  unfolding recover recover_or_explain fail_exhausted_media_job
  recovered at owner id db none found = Commits-err _
  recovered at owner id db (some j) found =
      let (here, spent) = found j refl in
      Commits-ok _ _ (λ i. recovered_row at owner id db j i here spent)

  taken :
      (at : Times) (owner id : ℕ) (db : Db) (o : Option Job)
      → Commits (Moves store db) (take store at owner id db o)
  unfolding take
  taken at owner id db none =
      recovered at owner id db (select_row db.jobs id (is_exhausted store (at 1)))
        (λ j e. select_row-eq-some db.jobs id (is_exhausted store (at 1)) e)
  taken at owner id db (some j) = Commits-ok _ _ (
      RowMove-update_row store db.jobs id (is_claimable store db (at 0))
        (claimed_job store owner (at 0))
        (λ r e free.
          claims owner (at 0) (ground arith) (ground arith) (ground arith) (ground arith)
            (ground arith) refl))

  pub Moves-claim_job :
      (at : Times) (owner id : ℕ) (db : Db) → Moves store db (claim_job store at owner id db).0
  unfolding claim_job
  Moves-claim_job at owner id db = elim (Bool-cases (owner == 0)) [
    | inl e ↦ rw e (Moves-refl db)
    | inr e ↦ rw e (
        transaction-P db _ (Moves-refl db)
          (taken at owner id db (select_row db.jobs id (is_claimable store db (at 0)))))
  ]

  pub Moves-renew_lease :
      (now id : ℕ) (held : JobLease) (db : Db) → Moves store db (renew_lease store now id held db).0
  unfolding renew_lease
  Moves-renew_lease now id held db = elim (Bool-cases (matches db.jobs id (held_by held now))) [
    | inl e ↦ rw e (
        RowMove-update_row store db.jobs id (held_by held now)
          (λ j. record j { lease_expires_at = some (now + store.lease_expiry) })
          (λ j here mine. renews now (ground arith) (ground arith) (ground arith) refl))
    | inr e ↦ rw e (Moves-refl db)
  ]

-- The retry row changes only the outbox.
pub jobs-insert_media_retry_outbox :
    (codec : Codec) (outbox_id traceparent id version_id : ℕ) (job : Job) (occurred next : ℕ)
    (db db' : Db)
    → insert_media_retry_outbox codec outbox_id traceparent id version_id job occurred next db
      ≡ ok db'
    → db'.jobs ≡ db.jobs
unfolding insert_media_retry_outbox
jobs-insert_media_retry_outbox codec outbox_id traceparent id version_id job occurred next db db'
      h =
    ground arith

module _ (codec : Codec) (store : JobStore) (at : Times) (outbox_id traceparent : ℕ) where
  rescheduled :
      (id : ℕ) (current : Job) (db : Db) (delay : Option ℕ)
      → db.jobs id ≡ some current
      → is_processing current.status ≡ true
      → current.attempt_count < attempts store
      → Commits
          (Moves store db)
          (reschedule codec store at outbox_id traceparent id current db delay)
  unfolding reschedule
  rescheduled id current db none here busy room = Commits-err _
  rescheduled id current db (some delay) here busy room =
      let next = at 1 + delay in
      let requeued = record db { jobs = update_row db.jobs id (λ _. true) (requeued_job next) } in
      Commits-bind
        (insert_media_retry_outbox codec outbox_id traceparent id current.version_id current (at 1)
          next requeued)
        (λ db'. ok (db', true))
        (λ db' inserted. Commits-ok db' true (λ i.
          subst (λ (t : Table Job). RowMove store (db.jobs i) (t i))
            (sym (
              jobs-insert_media_retry_outbox codec outbox_id traceparent id current.version_id
                current (at 1) next requeued db' inserted))
            (RowMove-update_row store db.jobs id (λ _. true) (requeued_job next)
              (λ j e _. requeues next (ground arith) (ground arith) refl) i)))

  settled :
      (id : ℕ) (job : Job) (held : JobLease) (db : Db) (o : Option Job)
      → ((j : Job) → o ≡ some j → (db.jobs id ≡ some j) × (held_by held (at 0) j ≡ true))
      → Commits (Moves store db) (settle_locked codec store at outbox_id traceparent id job db o)
  unfolding settle_locked
  settled id job held db none found = Commits-ok db false (Moves-refl store db)
  settled id job held db (some current) found =
      let (here, mine) = found current refl in
      let busy : is_processing current.status ≡ true = ground arith in
      Commits-if (changed current job) _ _ (λ _. Commits-err _)
        (λ _.
          Commits-if (leb (attempts store) current.attempt_count) _ _
            (λ _.
              Commits-ok _ true (Moves-fail_exhausted store (at 1) (at 2) id current db here busy))
            (λ room. rescheduled id current db _ here busy (ground arith)))

  pub Moves-settle_execution_failure :
      (id : ℕ) (job : Job) (held : JobLease) (db : Db)
      → Moves store db
          (settle_execution_failure codec store at outbox_id traceparent id job held db).0
  unfolding settle_execution_failure
  Moves-settle_execution_failure id job held db = transaction-P db _ (Moves-refl store db) (
      settled id job held db (select_row db.jobs id (held_by held (at 0)))
        (λ j e. select_row-eq-some db.jobs id (held_by held (at 0)) e))

abbrev completed_jobs : Times → MediaCompletion → Db → Bool → Table Job
completed_jobs at completion db applied =
    if applied
    then update_row db.jobs completion.job_id (λ _. true) (completed_job (at 2))
    else db.jobs

jobs-complete_work :
    (at : Times) (completion : MediaCompletion) (held : JobLease) (db db' : Db) (applied : Bool)
    → complete_work at completion held db ≡ ok (db', applied)
    → db'.jobs ≡ completed_jobs at completion db applied
unfolding complete_work
jobs-complete_work at completion held db db' applied h = ground arith

-- Work that applied had locked a row that is processing.
matched-complete_work :
    (at : Times) (completion : MediaCompletion) (held : JobLease) (db db' : Db)
    → complete_work at completion held db ≡ ok (db', true)
    → matches db.jobs completion.job_id (held_by held (at 0)) ≡ true
unfolding complete_work
matched-complete_work at completion held db db' h = ground arith

busy_of_matches :
    (held : JobLease) (now : ℕ) (o : Option Job) (j : Job)
    → o ≡ some j
    → is_some (keep_if (held_by held now) o) ≡ true
    → is_processing j.status ≡ true
busy_of_matches held now o j e h = ground arith

module _ (store : JobStore) (at : Times) where
  completed :
      (completion : MediaCompletion) (held : JobLease) (db : Db) (applied : Bool)
      → (applied ≡ true → matches db.jobs completion.job_id (held_by held (at 0)) ≡ true)
      → (i : ℕ) → RowMove store (db.jobs i) (completed_jobs at completion db applied i)
  completed completion held db true locked =
      RowMove-update_row store db.jobs completion.job_id (λ _. true) (completed_job (at 2))
        (λ j e _.
          completes (at 2)
            (busy_of_matches held (at 0) (db.jobs completion.job_id) j e (locked refl)) refl)
  completed completion held db false locked = Moves-refl store db

  complete_work-Moves :
      (completion : MediaCompletion) (held : JobLease) (db : Db)
      → Commits (Moves store db) (complete_work at completion held db)
  complete_work-Moves completion held db = record {
    at = λ db' applied e i.
        subst (λ (t : Table Job). RowMove store (db.jobs i) (t i))
          (sym (jobs-complete_work at completion held db db' applied e))
          (completed completion held db applied
            (λ yes'. matched-complete_work at completion held db db' (rw yes' at e)) i);
  }

  complete_checked-Moves :
      (completion : MediaCompletion) (held : JobLease) (db : Db) (r : Result JobError (Unit {0}))
      → Moves store db (complete_checked at completion held db r).0
  unfolding complete_checked
  complete_checked-Moves completion held db (err e) = Moves-refl store db
  complete_checked-Moves completion held db (ok u) =
      transaction-P db (complete_work at completion held db) (Moves-refl store db)
        (complete_work-Moves completion held db)

  pub Moves-complete_and_promote :
      (completion : MediaCompletion) (held : JobLease) (db : Db)
      → Moves store db (complete_and_promote at completion held db).0
  unfolding complete_and_promote
  Moves-complete_and_promote completion held db = complete_checked-Moves completion held db _

  pub Moves-fail_version :
      (failure : MediaFailure) (held : JobLease) (db : Db)
      → Moves store db (fail_version at failure held db).0
  unfolding fail_version
  Moves-fail_version failure held db =
      elim (Bool-cases (matches db.jobs failure.job_id (held_by held (at 0)))) [
        | inl e ↦ rw e (
            Moves-fail_media_version store (at 1) (at 2) failure db
              (λ j here. busy_of_matches held (at 0) (db.jobs failure.job_id) j here e))
        | inr e ↦ rw e (Moves-refl store db)
      ]
