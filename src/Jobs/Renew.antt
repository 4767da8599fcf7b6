-- ===== src/Jobs/Renew.antt =====
-- RenewLease of media_job_store.go.
use seta_im_intern.Prelude.{ℕ, ◌+◌, some, if◌then◌else◌, update_row, matches, Result, ok, err}
use seta_im_intern.Media.{Db, JobLease}
use seta_im_intern.Jobs.Rows.{JobStore, JobError, lease_not_held, held_by}

unfoldable pub renew_lease : JobStore → ℕ → ℕ → JobLease → Db → Db × Result JobError JobLease
renew_lease store now id held db =
    if matches db.jobs id (held_by held now)
    then (
      record db {
        jobs =
            update_row db.jobs id (held_by held now)
              (λ j. record j { lease_expires_at = some (now + store.lease_expiry) });
      },
      ok (record { owner = held.owner; expires_at = now + store.lease_expiry }),
    )
    else (db, err lease_not_held)
