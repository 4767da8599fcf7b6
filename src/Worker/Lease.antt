-- ===== src/Worker/Lease.antt =====
-- The lease keeper of usecase/media_lease.go beside the work of an executor: what the two do, in the
-- order in which it happens.
use seta_im_intern.Prelude.{ℕ, Bool, true, false, List, [], ◌∷◌, Result, ok, err}
use seta_im_intern.Media.{Db, JobLease}
use seta_im_intern.Jobs.Rows.{JobStore, JobError}
use seta_im_intern.Jobs.Renew.{renew_lease}

-- The renewing goroutine is at its loop, or has returned, after ErrLeaseLost or without it.
pub data Keeper : Type 0 where
  renewing lost stopped : Keeper

pub record Held : Type 0 where
  pub db : Db
  pub current : JobLease
  pub keeper : Keeper

-- A tick that renews at an instant, a tick whose renewal fails in the driver, and the end of the
-- context that the keeper was given.
pub data KeeperEvent : Type 0 where
  tick : ℕ → KeeperEvent
  tick_fails cancelled : KeeperEvent

-- An event of the keeper, or a piece of the executor's work under the lease as it then stands.
pub data Activity : Type 0 where
  keeps : KeeperEvent → Activity
  works : (JobLease → Db → Db) → Activity

module _ (store : JobStore) (id : ℕ) where
  abbrev pub after_renewal : JobLease → Db × Result JobError JobLease → Held
  after_renewal current (db, ok renewed) = record { db = db; current = renewed; keeper = renewing }
  after_renewal current (db, err e) = record { db = db; current = current; keeper = lost }

  abbrev pub renew_once : KeeperEvent → Db → JobLease → Held
  renew_once (tick now) db current = after_renewal current (renew_lease store now id current db)
  renew_once tick_fails db current = record { db = db; current = current; keeper = lost }
  renew_once cancelled db current = record { db = db; current = current; keeper = stopped }

  -- A keeper that has returned sees no event any more.
  abbrev pub keep_lease : KeeperEvent → Keeper → Held → Held
  keep_lease event renewing held = renew_once event held.db held.current
  keep_lease event lost held = held
  keep_lease event stopped held = held

  unfoldable pub renew_until_lost : List KeeperEvent → Held → Held
  renew_until_lost [] held = held
  renew_until_lost (event ∷ events) held =
      renew_until_lost events (keep_lease event held.keeper held)

  abbrev pub act : Activity → Held → Held
  act (keeps event) held = keep_lease event held.keeper held
  act (works f) held = record held { db = f held.current held.db }

  unfoldable pub hold : List Activity → Held → Held
  hold [] held = held
  hold (activity ∷ rest) held = hold rest (act activity held)

abbrev pub lease_was_lost : Keeper → Bool
lease_was_lost lost = true
lease_was_lost renewing = false
lease_was_lost stopped = false
