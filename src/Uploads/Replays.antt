-- ===== src/Uploads/Replays.antt =====
-- A second commit of an upload finds the acceptance of the first.
use seta_im_intern.Prelude.{ℕ, ◌≡◌, Option, none, some, arith, ok}
use seta_im_intern.Media.{Db, Usage, Session, Version, Asset, committed, is_committed}
use seta_im_intern.Uploads.Rows.{Scope, lock_active_asset, lock_upload_session_row}
use seta_im_intern.Uploads.Commit.{row_or_refuse}

-- Later rows that a commit reads: every upload and version keeps its link, and every version the
-- instant of its creation.
pub record Retains (db later : Db) : Type 0 where
  pub by_upload :
      (id version : ℕ)
      → db.version_by_upload id ≡ some version
      → later.version_by_upload id ≡ some version
  pub by_version :
      (id job : ℕ) → db.job_by_version id ≡ some job → later.job_by_version id ≡ some job
  pub versions :
      (id : ℕ) (v : Version)
      → db.versions id ≡ some v
      → (v' : Version) × (later.versions id ≡ some v') × (v'.created_at ≡ v.created_at)

-- And the session of the scope is still committed, in an active asset of an organization with a quota.
pub record StaysCommitted (scope : Scope) (db later : Db) : Type 0 where
  pub session : Session
  pub is_session : lock_upload_session_row scope later ≡ ok session
  pub is_committed : session.state ≡ committed
  pub same_session : (s : Session) → lock_upload_session_row scope db ≡ ok s → session.id ≡ s.id
  pub asset : Asset
  pub is_asset : lock_active_asset scope.org_id scope.asset_id later ≡ ok asset
  pub usage : Usage
  pub is_usage : later.usage scope.org_id ≡ some usage
  pub retained : Retains db later

row_or_refuse-eq-ok : {R : Type 0} (o : Option R) {r : R} → row_or_refuse o ≡ ok r → o ≡ some r
row_or_refuse-eq-ok none h = ground arith
row_or_refuse-eq-ok (some x) h = ground arith
