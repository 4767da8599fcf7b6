-- ===== src/Jobs/Moves.antt =====
-- The state machine that the job store implements: what one operation may do to one row. Every
-- operation of media_job_store.go and media_promotion.go refines it (Moves/Refinement).
pub mod Refinement
use seta_im_intern.Prelude.{
  ℕ, ◌+◌, ◌≤◌, ◌<◌, ◌≡◌, ◌≢◌, refl, sym, subst, Bool, true, false, Option, none, some, inl, inr,
  arith, ◌==◌, Bool-cases, Table, change_if, update_row,
}
use seta_im_intern.Media.{Db, Job, JobStatus, lapsed, is_live}
use seta_im_intern.Jobs.Rows.{JobStore, attempts, is_processing, is_open, failed_job}
use seta_im_intern.Jobs.Claim.{claimed_job}
use seta_im_intern.Jobs.Settle.{requeued_job}
use seta_im_intern.Jobs.Promote.{completed_job}

pub data Move (store : JobStore) (j j' : Job) : Type 0 where
  stays : j' ≡ j → Move store j j'
  claims :
      (owner now : ℕ)
      → is_open j.status ≡ true
      → j.notification_isolated_at ≡ none
      → j.attempt_count < attempts store
      → lapsed j.lease_expires_at now ≡ true
      → j.next_attempt_at ≤ now
      → j' ≡ claimed_job store owner now j
      → Move store j j'
  renews :
      (now : ℕ)
      → is_processing j.status ≡ true
      → is_live j.lease_expires_at now ≡ true
      → j.lease_owner ≢ none
      → j' ≡ record j { lease_expires_at = some (now + store.lease_expiry) }
      → Move store j j'
  requeues :
      (next : ℕ)
      → is_processing j.status ≡ true
      → j.attempt_count < attempts store
      → j' ≡ requeued_job next j
      → Move store j j'
  fails :
      (code now : ℕ) → is_processing j.status ≡ true → j' ≡ failed_job code now j → Move store j j'
  completes : (now : ℕ) → is_processing j.status ≡ true → j' ≡ completed_job now j → Move store j j'

-- No row appears or disappears.
abbrev pub RowMove : JobStore → Option Job → Option Job → Type 0
RowMove store none none = Unit
RowMove store (some j) (some j') = Move store j j'
RowMove store _ _ = ⊥

abbrev pub Moves : JobStore → Db → Db → Type 0
Moves store db db' = (i : ℕ) → RowMove store (db.jobs i) (db'.jobs i)

module _ (store : JobStore) where
  pub RowMove-refl : (o : Option Job) → RowMove store o o
  RowMove-refl none = tt
  RowMove-refl (some j) = stays refl

  RowMove-change_if :
      (p : Job → Bool) (f : Job → Job) (o : Option Job)
      → ((j : Job) → o ≡ some j → p j ≡ true → Move store j (f j))
      → RowMove store o (change_if p f o)
  RowMove-change_if p f none step = tt
  RowMove-change_if p f (some j) step = elim (Bool-cases (p j)) [
    | inl hit ↦ rw hit (step j refl hit)
    | inr miss ↦ rw miss (stays refl)
  ]

  -- An UPDATE moves the row that it selects, and no other.
  pub RowMove-update_row :
      (t : Table Job) (k : ℕ) (p : Job → Bool) (f : Job → Job)
      → ((j : Job) → t k ≡ some j → p j ≡ true → Move store j (f j))
      → (i : ℕ) → RowMove store (t i) (update_row t k p f i)
  RowMove-update_row t k p f step i = elim (Bool-cases (k == i)) [
    | inl same ↦
        let q : k ≡ i = ground arith in
        rw same (RowMove-change_if p f (t i) (λ j e. step j (rw q e)))
    | inr other ↦ rw other (RowMove-refl (t i))
  ]
