-- ===== src/Jobs/Runs.antt =====
-- What holds of the job rows over every run of the store's operations, by any workers, with any
-- leases and at any times.
use seta_im_intern.Prelude.{
  ℕ, ◌≤◌, ◌<◌, ◌≡◌, ◌≢◌, refl, ap, subst, ◌∙◌, Bool, true, false, Option, none, some, arith,
  AllRows,
}
use seta_im_intern.Media.{Db, Job, JobLease, JobStatus}
use seta_im_intern.Events.{Codec}
use seta_im_intern.Jobs.Rows.{JobStore, attempts, is_open, Times, MediaFailure}
use seta_im_intern.Jobs.Claim.{claim_job}
use seta_im_intern.Jobs.Renew.{renew_lease}
use seta_im_intern.Jobs.Settle.{settle_execution_failure}
use seta_im_intern.Jobs.Promote.{MediaCompletion, complete_and_promote, fail_version}
use seta_im_intern.Jobs.Moves.{
  Move, stays, claims, renews, requeues, fails, completes, RowMove, Moves,
}
use seta_im_intern.Jobs.Moves.Refinement.{
  Moves-claim_job, Moves-renew_lease, Moves-settle_execution_failure, Moves-complete_and_promote,
  Moves-fail_version,
}

-- One call of the store.
pub data Step (codec : Codec) (store : JobStore) (db db' : Db) : Type 0 where
  claim :
      (at : Times) (owner id : ℕ)
      → db' ≡ (claim_job store at owner id db).0
      → Step codec store db db'
  renew :
      (now id : ℕ) (held : JobLease)
      → db' ≡ (renew_lease store now id held db).0
      → Step codec store db db'
  settle :
      (at : Times) (outbox_id traceparent id : ℕ) (job : Job) (held : JobLease)
      → db' ≡ (settle_execution_failure codec store at outbox_id traceparent id job held db).0
      → Step codec store db db'
  complete :
      (at : Times) (completion : MediaCompletion) (held : JobLease)
      → db' ≡ (complete_and_promote at completion held db).0
      → Step codec store db db'
  fail :
      (at : Times) (failure : MediaFailure) (held : JobLease)
      → db' ≡ (fail_version at failure held db).0
      → Step codec store db db'

pub data Run (codec : Codec) (store : JobStore) (db : Db) : Db → Type 0 where
  here : Run codec store db db
  next : {m n : Db} → Run codec store db m → Step codec store m n → Run codec store db n

module _ (codec : Codec) (store : JobStore) where
  -- Every call of the store, whatever it returns, leaves each job row as it was or moves it by one
  -- transition of the state machine `Move`.
  pub Step-Moves : {db db' : Db} → Step codec store db db' → Moves store db db'
  Step-Moves {db} (claim at owner id e) = rw e (Moves-claim_job store at owner id db)
  Step-Moves {db} (renew now id held e) = rw e (Moves-renew_lease store now id held db)
  Step-Moves {db} (settle at outbox_id traceparent id job held e) =
      rw e (Moves-settle_execution_failure codec store at outbox_id traceparent id job held db)
  Step-Moves {db} (complete at completion held e) =
      rw e (Moves-complete_and_promote store at completion held db)
  Step-Moves {db} (fail at failure held e) = rw e (Moves-fail_version store at failure held db)

-- The lease's two columns are set exactly while the job is processing.
abbrev pub lease_fits : JobStatus → Option ℕ → Option ℕ → Bool
lease_fits JobStatus.processing (some owner) (some expires) = true
lease_fits JobStatus.processing _ _ = false
lease_fits _ none none = true
lease_fits _ _ _ = false

pub record IsSound (store : JobStore) (j : Job) : Type 0 where
  pub lease : lease_fits j.status j.lease_owner j.lease_expires_at ≡ true
  pub within : j.attempt_count ≤ attempts store
  pub queued_has_room : j.status ≡ JobStatus.queued → j.attempt_count < attempts store
  pub processing_counted : j.status ≡ JobStatus.processing → 0 < j.attempt_count
  pub failed_dated : j.status ≡ JobStatus.failed → j.failed_at ≢ none
  pub completed_dated : j.status ≡ JobStatus.completed → j.completed_at ≢ none

module _ (store : JobStore) where
  Move-IsSound : (j j' : Job) → IsSound store j → Move store j j' → IsSound store j'
  Move-IsSound j j' s (stays e) = rw e s
  Move-IsSound j j' s (claims owner now o i a l d e) = rw e (ground arith)
  Move-IsSound j j' s (renews now p l o e) = rw e (ground arith)
  Move-IsSound j j' s (requeues due p a e) = rw e (ground arith)
  Move-IsSound j j' s (fails code now p e) = rw e (ground arith)
  Move-IsSound j j' s (completes now p e) = rw e (ground arith)

  Move-attempt_count : (j j' : Job) → Move store j j' → j.attempt_count ≤ j'.attempt_count
  Move-attempt_count j j' (stays e) = ground arith
  Move-attempt_count j j' (claims owner now o i a l d e) = ground arith
  Move-attempt_count j j' (renews now p l o e) = ground arith
  Move-attempt_count j j' (requeues due p a e) = ground arith
  Move-attempt_count j j' (fails code now p e) = ground arith
  Move-attempt_count j j' (completes now p e) = ground arith

  Move-closed : (j j' : Job) → is_open j.status ≡ false → Move store j j' → j' ≡ j
  Move-closed j j' c (stays e) = e
  Move-closed j j' c (claims owner now o i a l d e) = cc
  Move-closed j j' c (renews now p l o e) = ground arith
  Move-closed j j' c (requeues due p a e) = ground arith
  Move-closed j j' c (fails code now p e) = ground arith
  Move-closed j j' c (completes now p e) = ground arith

  RowMove-forth :
      (o o' : Option Job) (j : Job)
      → RowMove store o o'
      → o ≡ some j
      → (j' : Job) × (o' ≡ some j') × Move store j j'
  RowMove-forth none none j m e = cc
  RowMove-forth none (some k) j m e = elim m [ ]
  RowMove-forth (some i) none j m e = elim m [ ]
  RowMove-forth (some i) (some k) j m e =
      let q : i ≡ j = ground arith in (k, refl, subst (λ (x : Job). Move store x k) q m)

  RowMove-back :
      (o o' : Option Job) (j' : Job)
      → RowMove store o o'
      → o' ≡ some j'
      → (j : Job) × (o ≡ some j) × Move store j j'
  RowMove-back none none j' m e = cc
  RowMove-back none (some k) j' m e = elim m [ ]
  RowMove-back (some i) none j' m e = elim m [ ]
  RowMove-back (some i) (some k) j' m e =
      let q : k ≡ j' = ground arith in (i, refl, subst (λ (x : Job). Move store i x) q m)

abbrev pub IsSoundDb : JobStore → Db → Type 0
IsSoundDb store db = AllRows (IsSound store) db.jobs

module _ (codec : Codec) (store : JobStore) where
  -- From a database whose job rows are all sound, whatever calls of the job store are made, by any
  -- workers, with any leases and at any times, every job row is sound: it has a lease exactly while
  -- it is processing, it has made no more attempts than the store schedules and fewer while it is
  -- queued, at least one while it is processing, and a failed or completed row has its date.
  pub Run-IsSound :
      {db db' : Db} → Run codec store db db' → IsSoundDb store db → IsSoundDb store db'
  Run-IsSound here s i j' e = s i j' e
  Run-IsSound {db} {db'} (next {m} r st) s i j' e =
      let (j, before, move) =
        RowMove-back store (m.jobs i) (db'.jobs i) j' (Step-Moves codec store st i) e in
      Move-IsSound store j j' (Run-IsSound r s i j before) move

  -- A row that is in the table stays, and no call of the job store lowers its attempt count.
  pub Run-attempt_count :
      {db db' : Db}
      → Run codec store db db'
      → (i : ℕ) (j : Job) → db.jobs i ≡ some j
      → (j' : Job) × (db'.jobs i ≡ some j') × (j.attempt_count ≤ j'.attempt_count)
  Run-attempt_count here i j e = (j, e, omega arith)
  Run-attempt_count {db} {db'} (next {m} r st) i j e =
      let (k, mid, le) = Run-attempt_count r i j e in
      let (j', after, move) =
        RowMove-forth store (m.jobs i) (db'.jobs i) k (Step-Moves codec store st i) mid in
      (j', after, omega (arith, Move-attempt_count store k j' move))

  -- A completed or failed job is final: whatever calls of the job store follow, its row is
  -- unchanged.
  pub Run-closed :
      {db db' : Db}
      → Run codec store db db'
      → (i : ℕ) (j : Job) → db.jobs i ≡ some j
      → is_open j.status ≡ false
      → db'.jobs i ≡ some j
  Run-closed here i j e c = e
  Run-closed {db} {db'} (next {m} r st) i j e c =
      let (j', after, move) =
        RowMove-forth store (m.jobs i) (db'.jobs i) j (Step-Moves codec store st i)
          (Run-closed r i j e c) in
      after ∙ ap some (Move-closed store j j' c move)
