-- ===== src/Jobs/Leases.antt =====
-- Leases as locks: one holder at a time, and a holder that has been replaced can write nothing.
use seta_im_intern.Prelude.{
  ℕ, ◌+◌, ◌<◌, ◌≡◌, ◌≢◌, ◌↔◌, refl, ap, true, false, Option, none, some, arith, inl, inr, ◌==◌,
  keep_if, is_some, matches, select_row, select_row-eq-some, change_if, update_row, Result, ok, err,
  commit_or_roll_back, Bool-cases, Option-cases,
}
use seta_im_intern.Media.{Db, Job, JobLease, is_live}
use seta_im_intern.Events.{Codec}
use seta_im_intern.Jobs.Rows.{
  JobStore, JobError, job_leased, lease_not_held, held_by, is_open, is_processing, Times,
  MediaFailure,
}
use seta_im_intern.Jobs.Claim.{
  Claim, ClaimOutcome, claimed, recovered_exhaustion, claim_result, is_claimable, is_exhausted,
  claim_job, take, recover, claim_of, explain, claimed_job,
}
use seta_im_intern.Jobs.Renew.{renew_lease}
use seta_im_intern.Jobs.Settle.{settle_execution_failure}
use seta_im_intern.Jobs.Promote.{
  MediaCompletion, complete_checked, complete_and_promote, fail_version,
}
use mathlib.Core.Path.{subst₂}

module _ (store : JobStore) (at : Times) (owner id : ℕ) where
  unclaimable_while_live :
      (db : Db) (j : Job) (o : Option Job)
      → o ≡ some j
      → is_live j.lease_expires_at (at 0) ≡ true
      → keep_if (is_claimable store db (at 0)) o ≡ none
  unclaimable_while_live db j o here live = ground arith

  unexhausted_while_live :
      (j : Job) (o : Option Job)
      → o ≡ some j
      → is_live j.lease_expires_at (at 1) ≡ true
      → keep_if (is_exhausted store (at 1)) o ≡ none
  unexhausted_while_live j o here live = ground arith

  explain_live :
      (j : Job) (o : Option Job)
      → o ≡ some j
      → is_open j.status ≡ true
      → j.notification_isolated_at ≡ none
      → is_live j.lease_expires_at (at 2) ≡ true
      → explain store (at 2) o ≡ job_leased
  unfolding explain
  explain_live j o here open' clear live = ground arith

  -- While a job's lease is live at each of the claim's three statements, a claim of that job by
  -- any named worker, the holder included, is refused as leased and changes nothing.
  pub claim_job-live :
      (db : Db) (j : Job)
      → owner ≢ 0
      → db.jobs id ≡ some j
      → is_open j.status ≡ true
      → j.notification_isolated_at ≡ none
      → ((n : ℕ) → is_live j.lease_expires_at (at n) ≡ true)
      → claim_job store at owner id db ≡ (db, err job_leased)
  unfolding claim_job take recover
  claim_job-live db j named here open' clear live =
      let refused = unclaimable_while_live db j (db.jobs id) here (live 0) in
      let kept = unexhausted_while_live j (db.jobs id) here (live 1) in
      let why = explain_live j (db.jobs id) here open' clear (live 2) in
      let unnamed : (owner == 0) ≡ false = ground arith in
      rw (unnamed, refused, kept) (ap (λ e. (db, err e)) why)

  record IsGranted (r : Option Job) (c : Claim) : Type 0 where
    row : r ≡ some c.job
    busy : is_processing c.job.status ≡ true
    owned : c.job.lease_owner ≡ some owner
    until : c.job.lease_expires_at ≡ some (at 0 + store.lease_expiry)
    lease_owner : c.lease.owner ≡ owner
    lease_until : c.lease.expires_at ≡ at 0 + store.lease_expiry

  grant :
      (db : Db) (j : Job) (o : Option Job)
      → o ≡ some j
      → is_claimable store db (at 0) j ≡ true
      → IsGranted
          (change_if (is_claimable store db (at 0)) (claimed_job store owner (at 0)) o)
          (claim_of store owner (at 0) j)
  unfolding claim_of
  grant db j o here free =
      rw (here, free)
        (record {
          row = refl;
          busy = refl;
          owned = refl;
          until = refl;
          lease_owner = refl;
          lease_until = refl;
        })

  taken :
      (db : Db) (o : Option Job) (c : Claim) (db' : Db)
      → select_row db.jobs id (is_claimable store db (at 0)) ≡ o
      → take store at owner id db o ≡ ok (db', claimed c)
      → IsGranted (db'.jobs id) c
  unfolding take recover
  taken db none c db' sel e = ground arith
  taken db (some j) c db' sel e =
      let (here, free) = select_row-eq-some db.jobs id (is_claimable store db (at 0)) sel in
      let now_leased =
        update_row db.jobs id (is_claimable store db (at 0)) (claimed_job store owner (at 0)) in
      let ec : claim_of store owner (at 0) j ≡ c = cc in
      let ed : record db { jobs = now_leased } ≡ db' = cc in
      let self : (id == id) ≡ true = ground arith in
      subst₂ IsGranted (ap (λ (d : Db). d.jobs id) ed) ec
        (rw self (grant db j (db.jobs id) here free))

  committed_claim :
      (db db' : Db) (c : Claim) (w : Result JobError (Db × ClaimOutcome))
      → (commit_or_roll_back db w).0 ≡ db'
      → claim_result (commit_or_roll_back db w).1 ≡ ok c
      → w ≡ ok (db', claimed c)
  committed_claim db db' c (ok (d, claimed k)) e f = cc
  committed_claim db db' c (ok (d, recovered_exhaustion)) e f = cc
  committed_claim db db' c (err x) e f = cc

  -- What a claim that succeeds has done to the row.
  claim_job-IsGranted :
      (db db' : Db) (c : Claim)
      → claim_job store at owner id db ≡ (db', ok c)
      → IsGranted (db'.jobs id) c
  unfolding claim_job
  claim_job-IsGranted db db' c e =
      taken db (select_row db.jobs id (is_claimable store db (at 0))) c db' refl
        (elim (Bool-cases (owner == 0)) [
          | inl unnamed ↦ absurd (let f = ap (λ p. p.1) (rw unnamed at e) in cc)
          | inr named ↦
              let f = rw named at e in
              committed_claim db db' c _ (ap (λ p. p.0) f) (ap (λ p. p.1) f)
        ])

  accepts :
      (c : Claim) (r : Option Job) (held : JobLease) (now : ℕ)
      → IsGranted r c
      → (is_some (keep_if (held_by held now) r) ≡ true)
        ↔ ((held ≡ c.lease) × (now < c.lease.expires_at))
  accepts c r held now g = ((λ h. (ground arith, ground arith)), λ h. ground arith)

  -- After a claim that succeeds, the lease that it returned is the only one under which the store
  -- accepts a write to that job, and it is accepted exactly until its expiry.
  pub claim_job-only_lease :
      (db db' : Db) (c : Claim)
      → claim_job store at owner id db ≡ (db', ok c)
      → (held : JobLease) (now : ℕ)
      → (matches db'.jobs id (held_by held now) ≡ true)
        ↔ ((held ≡ c.lease) × (now < c.lease.expires_at))
  claim_job-only_lease db db' c e held now =
      accepts c (db'.jobs id) held now (claim_job-IsGranted db db' c e)

  refused :
      (db db' : Db) (c : Claim)
      → claim_job store at owner id db ≡ (db', ok c)
      → (held : JobLease) (now : ℕ) → held ≢ c.lease
      → matches db'.jobs id (held_by held now) ≡ false
  refused db db' c e held now other = elim (Bool-cases (matches db'.jobs id (held_by held now))) [
    | inl yes' ↦ absurd (other ((claim_job-only_lease db db' c e held now).0 yes').0)
    | inr no' ↦ no'
  ]

-- A write under a lease that the row does not show is refused.
module _ (store : JobStore) (id : ℕ) (held : JobLease) (db : Db) where
  pub renew_lease-refused :
      (now : ℕ)
      → matches db.jobs id (held_by held now) ≡ false
      → renew_lease store now id held db ≡ (db, err lease_not_held)
  unfolding renew_lease
  renew_lease-refused now h = rw h

  pub settle-refused :
      (codec : Codec) (at : Times) (outbox_id traceparent : ℕ) (job : Job)
      → matches db.jobs id (held_by held (at 0)) ≡ false
      → settle_execution_failure codec store at outbox_id traceparent id job held db
        ≡ (db, ok false)
  unfolding settle_execution_failure
  settle-refused codec at outbox_id traceparent job h =
      elim (Option-cases (select_row db.jobs id (held_by held (at 0)))) [
        | inl e ↦ rw e
        | inr (j, e) ↦ absurd (let f = rw e at h in cc)
      ]

  fail_version-refused :
      (at : Times) (failure : MediaFailure)
      → failure.job_id ≡ id
      → matches db.jobs id (held_by held (at 0)) ≡ false
      → fail_version at failure held db ≡ (db, ok false)
  unfolding fail_version
  fail_version-refused at failure same h = rw (same, h)

  complete_checked-refused :
      (at : Times) (completion : MediaCompletion) (r : Result JobError (Unit {0}))
      → completion.job_id ≡ id
      → matches db.jobs id (held_by held (at 0)) ≡ false
      → (complete_checked at completion held db r).0 ≡ db
  unfolding complete_checked
  complete_checked-refused at completion (err e) same h = refl
  complete_checked-refused at completion (ok u) same h = rw (same, h)

-- Once a claim has succeeded, whoever still holds another lease of that job, from an earlier claim
-- or renewal, changes nothing with it at any time: a renewal is refused, settling a failure and
-- failing the version report that the lease was not held, and completing the job, even with a
-- complete output set, leaves the database as it was.
pub replaced_lease_is_fenced :
    (codec : Codec) (store : JobStore) (at : Times) (owner id : ℕ) (db db' : Db) (c : Claim)
    (held : JobLease)
    → claim_job store at owner id db ≡ (db', ok c)
    → held ≢ c.lease
    → (later : Times) (outbox_id traceparent : ℕ) (job : Job) (failure : MediaFailure)
      (completion : MediaCompletion)
    → failure.job_id ≡ id
    → completion.job_id ≡ id
    → (renew_lease store (later 0) id held db' ≡ (db', err lease_not_held))
      × (settle_execution_failure codec store later outbox_id traceparent id job held db'
          ≡ (db', ok false))
      × (fail_version later failure held db' ≡ (db', ok false))
      × ((complete_and_promote later completion held db').0 ≡ db')
unfolding complete_and_promote
replaced_lease_is_fenced codec store at owner id db db' c held e other later outbox_id traceparent
      job failure completion fs cs =
    let no' = refused store at owner id db db' c e held (later 0) other in
    (
      renew_lease-refused store id held db' (later 0) no',
      settle-refused store id held db' codec later outbox_id traceparent job no',
      fail_version-refused store id held db' later failure fs no',
      complete_checked-refused store id held db' later completion _ cs no',
    )
