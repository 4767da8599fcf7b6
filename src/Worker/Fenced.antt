-- ===== src/Worker/Fenced.antt =====
-- RunJob (usecase/media_worker.go) after its lease was replaced: it writes nothing any more, and does
-- not report the job as settled.
use seta_im_intern.Prelude.{
  ℕ, ◌≡◌, refl, ◌∙◌, Bool-cases, inl, inr, false, ◌||◌, List, [], ◌∷◌, ok, err, matches,
  if◌then◌else◌,
}
use seta_im_intern.Media.{Db, Job}
use seta_im_intern.Events.{Codec}
use seta_im_intern.Jobs.Rows.{JobStore, held_by}
use seta_im_intern.Jobs.Claim.{Claim, claim_job}
use seta_im_intern.Jobs.Leases.{renew_lease-refused, settle-refused}
use seta_im_intern.Worker.Lease.{
  Keeper, renewing, lost, stopped, Held, KeeperEvent, tick, tick_fails, cancelled, keep_lease,
  renew_once, renew_until_lost, hold, lease_was_lost,
}
use seta_im_intern.Worker.Job.{
  Execution, Schedule, lease_lost, settle_failed, after_execution, after_claim, run_job,
}

-- The row is not under the lease at any instant: it is gone, settled, or under another lease.
abbrev pub IsReplaced : ℕ → Held → Type 0
IsReplaced id held = (t : ℕ) → matches held.db.jobs id (held_by held.current t) ≡ false

module _ (store : JobStore) (id : ℕ) where
  record IsUnmoved (held held' : Held) : Type 0 where
    same_db : held'.db ≡ held.db
    same_lease : held'.current ≡ held.current

  IsReplaced-kept :
      (held held' : Held) → IsUnmoved held held' → IsReplaced id held → IsReplaced id held'
  IsReplaced-kept held held' u replaced t = rw (u.same_db, u.same_lease) (replaced t)

  renew_once-IsUnmoved :
      (event : KeeperEvent) (held : Held)
      → IsReplaced id held
      → IsUnmoved held (renew_once store id event held.db held.current)
  renew_once-IsUnmoved (tick now) held replaced =
      let e = renew_lease-refused store id held.current held.db now (replaced now) in
      record { same_db = rw e refl; same_lease = rw e refl }
  renew_once-IsUnmoved tick_fails held replaced = record { same_db = refl; same_lease = refl }
  renew_once-IsUnmoved cancelled held replaced = record { same_db = refl; same_lease = refl }

  keep_lease-IsUnmoved :
      (event : KeeperEvent) (keeper : Keeper) (held : Held)
      → IsReplaced id held
      → IsUnmoved held (keep_lease store id event keeper held)
  keep_lease-IsUnmoved event renewing held replaced = renew_once-IsUnmoved event held replaced
  keep_lease-IsUnmoved event lost held replaced = record { same_db = refl; same_lease = refl }
  keep_lease-IsUnmoved event stopped held replaced = record { same_db = refl; same_lease = refl }

  renew_until_lost-IsUnmoved :
      (events : List KeeperEvent) (held : Held)
      → IsReplaced id held
      → IsUnmoved held (renew_until_lost store id events held)
  unfolding renew_until_lost
  renew_until_lost-IsUnmoved [] held replaced = record { same_db = refl; same_lease = refl }
  renew_until_lost-IsUnmoved (event ∷ events) held replaced =
      let next = keep_lease store id event held.keeper held in
      let u = keep_lease-IsUnmoved event held.keeper held replaced in
      let v = renew_until_lost-IsUnmoved events next (IsReplaced-kept held next u replaced) in
      record { same_db = v.same_db ∙ u.same_db; same_lease = v.same_lease ∙ u.same_lease }

module _ (codec : Codec) (store : JobStore) (owner : ℕ) (execution : Execution)
    (schedule : Schedule) (id : ℕ) where
  settle_failed-fenced :
      (job : Job) (held : Held)
      → IsReplaced id held
      → settle_failed codec store owner execution schedule id job held ≡ (held.db, err lease_lost)
  unfolding settle_failed
  settle_failed-fenced job held replaced =
      let reading = renew_until_lost store id execution.late held in
      let settling = renew_until_lost store id execution.later reading in
      let u = renew_until_lost-IsUnmoved store id execution.late held replaced in
      let there = IsReplaced-kept store id held reading u replaced in
      let v = renew_until_lost-IsUnmoved store id execution.later reading there in
      let same : settling.db ≡ held.db = v.same_db ∙ u.same_db in
      let refused =
        settle-refused store id held.current held.db codec schedule.settle_at schedule.outbox_id
          schedule.traceparent job (replaced (schedule.settle_at 0)) in
      rw (same, u.same_lease, refused) refl

  after_execution-fenced :
      (job : Job) (held : Held)
      → IsReplaced id held
      → after_execution codec store owner execution schedule id job held ≡ (
        held.db,
        if lease_was_lost held.keeper || execution.failed job held.db
            then err lease_lost
            else ok tt,
      )
  unfolding after_execution
  after_execution-fenced job held replaced = elim (Bool-cases (lease_was_lost held.keeper)) [
    | inl gone ↦ rw gone refl
    | inr kept ↦ elim (Bool-cases (execution.failed job held.db)) [
      | inl failed ↦ rw (kept, failed) (settle_failed-fenced job held replaced)
      | inr done ↦ rw (kept, done) refl
    ]
  ]

  -- Let RunJob have claimed its job, and let the job's row, when the executor returns, not be under the
  -- lease that RunJob then holds, whatever the executor, the lease keeper and other workers did. Then
  -- RunJob leaves the database as the executor left it, whatever renewals are still tried; and it
  -- reports a lost lease where the keeper noticed the loss or the execution failed, and success only
  -- where the executor returned without error and the keeper noticed nothing.
  pub run_job-fenced :
      (db claimed : Db) (c : Claim) (held : Held)
      → claim_job store schedule.claim_at owner id db ≡ (claimed, ok c)
      → hold store id
          (execution.activities c.job)
          (record { db = claimed; current = c.lease; keeper = renewing })
        ≡ held
      → IsReplaced id held
      → run_job codec store owner execution schedule id db ≡ (
        held.db,
        if lease_was_lost held.keeper || execution.failed c.job held.db
            then err lease_lost
            else ok tt,
      )
  unfolding run_job after_claim
  run_job-fenced db claimed c held is_claim is_held replaced =
      rw (is_claim, is_held) (after_execution-fenced c.job held replaced)
