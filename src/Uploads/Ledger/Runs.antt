-- ===== src/Uploads/Ledger/Runs.antt =====
-- The ledger over every run of the operations on upload sessions and of the sweep, by any callers and at any times.
use seta_im_intern.Prelude.{ℕ, ◌≡◌, List}
use seta_im_intern.Media.{Db, SessionState}
use seta_im_intern.Events.{Codec}
use seta_im_intern.Uploads.Rows.{CreateRequest, CreateOptions, Readings, Scope}
use seta_im_intern.Uploads.Sessions.{create_upload_session, refresh_upload_session}
use seta_im_intern.Uploads.Close.{cancel_upload_session, expire_upload_session}
use seta_im_intern.Uploads.Commit.{CommitIds, ObjectAttributes, commit_upload}
use seta_im_intern.Purge.Expire.{expire_upload_sessions}
use seta_im_intern.Purge.Objects.{PurgeableMediaObjects, mark_media_objects_purged}
use seta_im_intern.Purge.Balanced.{IsBalanced-expire_upload_sessions}
use seta_im_intern.Purge.Released.{IsBalanced-mark}
use seta_im_intern.Uploads.Ledger.{IsBalanced}
use seta_im_intern.Uploads.Ledger.Creating.{IsBalanced-create}
use seta_im_intern.Uploads.Ledger.Settling.{
  IsBalanced-refresh, IsBalanced-transition, IsBalanced-commit,
}

-- One call of the repository. A commit's first read sees any database.
pub data Step (codec : Codec) (digest : List ℕ → List ℕ) (db db' : Db) : Type 0 where
  create :
      (at : Readings) (request : CreateRequest) (options : CreateOptions)
      → db' ≡ (create_upload_session at request options digest db).0
      → Step codec digest db db'
  refresh :
      (now : ℕ) (scope : Scope) (credential_expires_at : ℕ)
      → db' ≡ (refresh_upload_session now scope credential_expires_at db).0
      → Step codec digest db db'
  cancel :
      (now : ℕ) (scope : Scope)
      → db' ≡ (cancel_upload_session now scope db).0
      → Step codec digest db db'
  expire :
      (now : ℕ) (scope : Scope)
      → db' ≡ (expire_upload_session now scope db).0
      → Step codec digest db db'
  commit :
      (at : Readings) (traceparent : ℕ) (ids : CommitIds) (scope : Scope)
      (attributes : ObjectAttributes) (seen : Db)
      → db' ≡ (commit_upload codec at traceparent ids scope attributes seen db).0
      → Step codec digest db db'
  sweep :
      (now : ℕ) (at : ℕ → ℕ → ℕ) (limit : ℕ)
      → db' ≡ (expire_upload_sessions now at limit db).0
      → Step codec digest db db'
  purge :
      (now : ℕ) (purged : PurgeableMediaObjects)
      → db' ≡ (mark_media_objects_purged now purged db).0
      → Step codec digest db db'

pub data Run (codec : Codec) (digest : List ℕ → List ℕ) (db : Db) : Db → Type 0 where
  here : Run codec digest db db
  next : {m n : Db} → Run codec digest db m → Step codec digest m n → Run codec digest db n

module _ (codec : Codec) (digest : List ℕ → List ℕ) where
  Step-IsBalanced : {db db' : Db} → Step codec digest db db' → IsBalanced db → IsBalanced db'
  unfolding cancel_upload_session expire_upload_session
  Step-IsBalanced {db} (create at request options e) b =
      rw e (IsBalanced-create at request options digest db b)
  Step-IsBalanced {db} (refresh now scope c e) b = rw e (IsBalanced-refresh now scope c db b)
  Step-IsBalanced {db} (cancel now scope e) b =
      rw e (IsBalanced-transition SessionState.cancelled now scope db b)
  Step-IsBalanced {db} (expire now scope e) b =
      rw e (IsBalanced-transition SessionState.expired now scope db b)
  Step-IsBalanced {db} (commit at traceparent ids scope attributes seen e) b =
      rw e (IsBalanced-commit codec at traceparent ids scope attributes db b seen)
  Step-IsBalanced {db} (sweep now at limit e) b =
      rw e (IsBalanced-expire_upload_sessions now at limit db b)
  Step-IsBalanced {db} (purge now purged e) b = rw e (IsBalanced-mark now purged db b)

-- Over every run of creations, refreshes, cancellations, expiries, commits, sweeps over expired
-- sessions and records of a purge from a balanced database, the database stays balanced: session identifiers are distinct, an asset has at most one
-- open session, each organization's reserved bytes are the sum of what its open sessions expect,
-- and reserved and stored bytes together stay within the quota.
pub Run-IsBalanced :
    (codec : Codec) (digest : List ℕ → List ℕ) {db db' : Db}
    → Run codec digest db db'
    → IsBalanced db
    → IsBalanced db'
Run-IsBalanced codec digest here b = b
Run-IsBalanced codec digest (next run step) b =
    Step-IsBalanced codec digest step (Run-IsBalanced codec digest run b)
