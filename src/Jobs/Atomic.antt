-- ===== src/Jobs/Atomic.antt =====
-- CompleteAndPromote is all or nothing.
use seta_im_intern.Prelude.{
  ℕ, ◌≡◌, ◌≢◌, refl, ap, ◌∙◌, Bool, true, false, Option, none, some, arith, ◌==◌, length, inl, inr,
  Bool-cases, is_some, keep_if, List, matches, Table, update_row, Result, ok, err,
  commit_or_roll_back,
}
use seta_im_intern.Media.{Db, Output, Job, JobLease, Asset, JobStatus}
use seta_im_intern.Jobs.Rows.{JobError, Times, held_by}
use seta_im_intern.Jobs.Promote.{
  MediaCompletion, stored_kinds, is_candidate, promote_active_version, completed_job,
  require_two_stored_outputs, require_complete_output_set, complete_work, complete_checked,
  complete_and_promote,
}

unapplied_work :
    (at : Times) (completion : MediaCompletion) (held : JobLease) (db db' : Db)
    → complete_work at completion held db ≡ ok (db', false)
    → db' ≡ db
unfolding complete_work
unapplied_work at completion held db db' h = ground arith

rolled_back :
    (at : Times) (completion : MediaCompletion) (held : JobLease) (db : Db)
    (w : Result JobError (Db × Bool))
    → complete_work at completion held db ≡ w
    → (commit_or_roll_back db w).1 ≢ ok true
    → (commit_or_roll_back db w).0 ≡ db
rolled_back at completion held db (ok (db', true)) e n = absurd (n refl)
rolled_back at completion held db (ok (db', false)) e n = unapplied_work at completion held db db' e
rolled_back at completion held db (err x) e n = refl

checked_unchanged :
    (at : Times) (completion : MediaCompletion) (held : JobLease) (db : Db)
    (r : Result JobError (Unit {0}))
    → (complete_checked at completion held db r).1 ≢ ok true
    → (complete_checked at completion held db r).0 ≡ db
unfolding complete_checked
checked_unchanged at completion held db (err e) n = refl
checked_unchanged at completion held db (ok u) n =
    rolled_back at completion held db (complete_work at completion held db) refl n

-- Unless the completion reports that it was applied, it has changed nothing: an incomplete output
-- set, a lease that is not held and a version that is no longer the asset's candidate leave every
-- table as it was, outputs included.
pub complete_and_promote-unapplied :
    (at : Times) (completion : MediaCompletion) (held : JobLease) (db : Db)
    → (complete_and_promote at completion held db).1 ≢ ok true
    → (complete_and_promote at completion held db).0 ≡ db
unfolding complete_and_promote
complete_and_promote-unapplied at completion held db n =
    checked_unchanged at completion held db (require_complete_output_set completion.outputs) n

abbrev pub promoted : MediaCompletion → Asset → Asset
promoted completion a = record a {
  active_media_version_id = some completion.version_id;
  pending_media_version_id = none;
}

-- What an applied completion has done, and what it needed.
pub record IsPromoted (at : Times) (completion : MediaCompletion) (db db' : Db) : Type 0 where
  pub candidate :
      (a : Asset) × (db.assets completion.asset_id ≡ some a)
      × (a.pending_media_version_id ≡ some completion.version_id)
      × (a.deleted_at ≡ none)
      × (db'.assets completion.asset_id ≡ some (promoted completion a))
  pub job :
      (j : Job) × (db.jobs completion.job_id ≡ some j)
      × (j.status ≡ JobStatus.processing)
      × (db'.jobs completion.job_id
          ≡ some (record j {
            status = JobStatus.completed;
            stage = none;
            completed_at = some (at 2);
            lease_owner = none;
            lease_expires_at = none;
          }))
  pub outputs : length (stored_kinds completion.version_id db'.outputs) ≡ 2

promoted_table :
    (completion : MediaCompletion) (assets t : Table Asset)
    → promote_active_version completion assets ≡ ok t
    → (matches assets completion.asset_id (is_candidate completion) ≡ true)
      × (t ≡ update_row assets completion.asset_id (is_candidate completion) (promoted completion))
unfolding promote_active_version
promoted_table completion assets t h =
    elim (Bool-cases (matches assets completion.asset_id (is_candidate completion))) [
      | inl e ↦ let f = rw e at h in (e, cc)
      | inr e ↦ absurd (let f = rw e at h in cc)
    ]

written :
    {R : Type 0} (t : Table R) (k : ℕ) (p : R → Bool) (f : R → R) (a : R)
    → t k ≡ some a
    → p a ≡ true
    → update_row t k p f k ≡ some (f a)
written t k p f a e hit = let self : (k == k) ≡ true = ground arith in rw (self, e, hit)

promoted_asset :
    (completion : MediaCompletion) (assets : Table Asset) (o : Option Asset) (t : Table Asset)
    → assets completion.asset_id ≡ o
    → promote_active_version completion assets ≡ ok t
    → (a : Asset) × (assets completion.asset_id ≡ some a)
      × (a.pending_media_version_id ≡ some completion.version_id)
      × (a.deleted_at ≡ none)
      × (t completion.asset_id ≡ some (promoted completion a))
promoted_asset completion assets none t e h =
    absurd (let (m, q) = promoted_table completion assets t h in let f = rw e at m in cc)
promoted_asset completion assets (some a) t e h =
    let (m, q) = promoted_table completion assets t h in
    let fits : is_candidate completion a ≡ true = ground arith in
    (
      a,
      e,
      ground arith,
      ground arith,
      ap (λ (u : Table Asset). u completion.asset_id) q
          ∙ written assets completion.asset_id (is_candidate completion) (promoted completion) a e
              fits,
    )

-- The parts of a completion that was applied.
record IsApplied (at : Times) (completion : MediaCompletion) (held : JobLease) (db db' : Db)
    : Type 0 where
  locked : matches db.jobs completion.job_id (held_by held (at 0)) ≡ true
  stored : require_two_stored_outputs completion.version_id db'.outputs ≡ ok tt
  assets : promote_active_version completion db.assets ≡ ok db'.assets
  jobs : db'.jobs ≡ update_row db.jobs completion.job_id (λ _. true) (completed_job (at 2))

IsApplied-work :
    (at : Times) (completion : MediaCompletion) (held : JobLease) (db db' : Db)
    → complete_work at completion held db ≡ ok (db', true)
    → IsApplied at completion held db db'
unfolding complete_work
IsApplied-work at completion held db db' h = record {
  locked = ground arith;
  stored = ground arith;
  assets = ground arith;
  jobs = ground arith;
}

processing_of_held :
    (held : JobLease) (now : ℕ) (j : Job) (o : Option Job)
    → o ≡ some j
    → is_some (keep_if (held_by held now) o) ≡ true
    → j.status ≡ JobStatus.processing
processing_of_held held now j o e h = ground arith

applied_job :
    (at : Times) (completion : MediaCompletion) (held : JobLease) (db db' : Db) (o : Option Job)
    → db.jobs completion.job_id ≡ o
    → IsApplied at completion held db db'
    → (j : Job) × (db.jobs completion.job_id ≡ some j)
      × (j.status ≡ JobStatus.processing)
      × (db'.jobs completion.job_id ≡ some (completed_job (at 2) j))
applied_job at completion held db db' none e a = absurd (let f = rw e at a.locked in cc)
applied_job at completion held db db' (some j) e a = (
  j,
  e,
  processing_of_held held (at 0) j (db.jobs completion.job_id) e a.locked,
  ap (λ (t : Table Job). t completion.job_id) a.jobs
      ∙ written db.jobs completion.job_id (λ _. true) (completed_job (at 2)) j e refl,
)

two_stored :
    (v : ℕ) (stored : List Output)
    → require_two_stored_outputs v stored ≡ ok tt
    → length (stored_kinds v stored) ≡ 2
unfolding require_two_stored_outputs
two_stored v stored h = ground arith

IsPromoted-of_result :
    (at : Times) (completion : MediaCompletion) (held : JobLease) (db : Db)
    (w : Result JobError (Db × Bool))
    → complete_work at completion held db ≡ w
    → (commit_or_roll_back db w).1 ≡ ok true
    → IsPromoted at completion db (commit_or_roll_back db w).0
IsPromoted-of_result at completion held db (ok (db', true)) e n =
    let a = IsApplied-work at completion held db db' e in
    record {
      candidate =
          promoted_asset completion db.assets (db.assets completion.asset_id) db'.assets refl
            a.assets;
      job = applied_job at completion held db db' (db.jobs completion.job_id) refl a;
      outputs = two_stored completion.version_id db'.outputs a.stored;
    }
IsPromoted-of_result at completion held db (ok (db', false)) e n = absurd (cc)
IsPromoted-of_result at completion held db (err x) e n = absurd (cc)

checked_promotes :
    (at : Times) (completion : MediaCompletion) (held : JobLease) (db : Db)
    (r : Result JobError (Unit {0}))
    → (complete_checked at completion held db r).1 ≡ ok true
    → IsPromoted at completion db (complete_checked at completion held db r).0
unfolding complete_checked
checked_promotes at completion held db (err e) n = absurd (cc)
checked_promotes at completion held db (ok u) n =
    IsPromoted-of_result at completion held db (complete_work at completion held db) refl n

-- A completion that reports that it was applied has promoted the version: the asset was not
-- deleted and had this version as its pending candidate, and now has it as its active version with
-- no candidate; the job was processing and is now completed, with no stage and no lease; and the
-- version has outputs of exactly two kinds.
pub complete_and_promote-applied :
    (at : Times) (completion : MediaCompletion) (held : JobLease) (db : Db)
    → (complete_and_promote at completion held db).1 ≡ ok true
    → IsPromoted at completion db (complete_and_promote at completion held db).0
unfolding complete_and_promote
complete_and_promote-applied at completion held db n =
    checked_promotes at completion held db (require_complete_output_set completion.outputs) n
