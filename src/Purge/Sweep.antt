-- ===== src/Purge/Sweep.antt =====
-- PurgeOnce of usecase/media_purge.go over an object store, whose Delete is an argument. The log and the
-- refresh of the metrics are left out, and the error of the expiries, which the source logs.
use seta_im_intern.Prelude.{ℕ, suc, ◌+◌, List, [], ◌∷◌, ◌==◌, if◌then◌else◌, Result, ok, err}
use seta_im_intern.Media.{Db}
use seta_im_intern.Uploads.Rows.{UploadError}
use seta_im_intern.Purge.Expire.{expire_upload_sessions}
use seta_im_intern.Purge.Objects.{
  ObjectKey, raw_key, KeyError, PurgeableMediaObjects, claim_purgeable_media_objects,
  mark_media_objects_purged,
}

pub data ObjectError : Type 0 where
  object_not_found : ObjectError
  store_failed : ℕ → ObjectError

pub data PurgeError : Type 0 where
  object_error : ObjectError → PurgeError
  database_error : UploadError → PurgeError

abbrev pub default_batch_size : ℕ → ℕ
default_batch_size n = if n == 0 then 50 else n

-- The times of a sweep: of the expiries' listing and their statements, of the claim, and of each mark.
pub record SweepTimes : Type 0 where
  pub listed : ℕ
  pub expiries : ℕ → ℕ → ℕ
  pub claimed : ℕ
  pub marks : ℕ → ℕ

module _ {W : Type 0} (delete : ObjectKey → W → W × Result ObjectError (Unit {0})) where
  abbrev pub absent_is_done : W × Result ObjectError (Unit {0}) → W × Result PurgeError (Unit {0})
  absent_is_done (w, ok u) = (w, ok u)
  absent_is_done (w, err object_not_found) = (w, ok tt)
  absent_is_done (w, err (store_failed e)) = (w, err (object_error (store_failed e)))

  unfoldable pub delete_object : ObjectKey → W → W × Result PurgeError (Unit {0})
  delete_object key w = absent_is_done (delete key w)

  abbrev pub after_delete :
      (W → W × Result PurgeError (Unit {0}))
      → W × Result PurgeError (Unit {0})
      → W × Result PurgeError (Unit {0})
  after_delete next (w, ok u) = next w
  after_delete next (w, err e) = (w, err e)

  unfoldable pub delete_objects : List ObjectKey → W → W × Result PurgeError (Unit {0})
  unfolding delete_object
  delete_objects [] w = (w, ok tt)
  delete_objects (key ∷ keys) w = after_delete (delete_objects keys) (delete_object key w)

  abbrev pub delete_raw : ℕ → W → W × Result PurgeError (Unit {0})
  delete_raw key w = if key == 0 then (w, ok tt) else delete_object (raw_key key) w

  abbrev pub marked :
      W → Db × Result UploadError (Unit {0}) → (W × Db) × Result PurgeError (Unit {0})
  marked w (db, ok u) = ((w, db), ok u)
  marked w (db, err e) = ((w, db), err (database_error e))

  abbrev pub mark_deleted :
      ℕ
      → PurgeableMediaObjects
      → Db
      → W × Result PurgeError (Unit {0})
      → (W × Db) × Result PurgeError (Unit {0})
  mark_deleted now batch db (w, ok u) = marked w (mark_media_objects_purged now batch db)
  mark_deleted now batch db (w, err e) = ((w, db), err e)

  unfoldable pub purge_batch :
      ℕ → PurgeableMediaObjects → W × Db → (W × Db) × Result PurgeError (Unit {0})
  unfolding delete_objects mark_media_objects_purged
  purge_batch now batch (w, db) = mark_deleted now batch db (
      after_delete (delete_raw batch.raw_object_key) (delete_objects batch.processed_object_keys w))

  abbrev pub counted : Result PurgeError (Unit {0}) → ℕ
  counted (ok u) = 1
  counted (err e) = 0

  unfoldable pub purge_batches : (ℕ → ℕ) → ℕ → List PurgeableMediaObjects → W × Db → (W × Db) × ℕ
  unfolding purge_batch
  purge_batches marks i [] s = (s, 0)
  purge_batches marks i (batch ∷ batches) s =
      let (s', result) = purge_batch (marks i) batch s in
      let (s'', purged) = purge_batches marks (suc i) batches s' in (s'', counted result + purged)

  abbrev pub purge_claimed :
      (ℕ → ℕ) → W × Db → Result KeyError (List PurgeableMediaObjects) → (W × Db) × Result KeyError ℕ
  purge_claimed marks s (err e) = (s, err e)
  purge_claimed marks s (ok batches) = let (s', n) = purge_batches marks 0 batches s in (s', ok n)

  unfoldable pub purge_once : SweepTimes → ℕ → ℕ → W × Db → (W × Db) × Result KeyError ℕ
  unfolding purge_batches claim_purgeable_media_objects expire_upload_sessions
  purge_once at quarantine batch_size (w, db) =
      let limit = default_batch_size batch_size in
      let (db', expired, failures) = expire_upload_sessions at.listed at.expiries limit db in
      purge_claimed at.marks (w, db')
        (claim_purgeable_media_objects at.claimed quarantine limit db')
