-- ===== src/PurgeTests.antt =====
-- The sweep on an upload that was committed and whose version failed, and the theorems about it there.
use seta_im_intern.Prelude.{
  ℕ, ◌+◌, ◌-◌, ◌≡◌, refl, true, some, List, [], ◌∷◌, any, ltb, update_row, Result, ok, err, map,
}
use seta_im_intern.Media.{Db, Usage, SessionState, VersionStatus, thumbnail, web, png_extension}
use seta_im_intern.UploadTests.{accepted, opened}
use seta_im_intern.Uploads.Sessions.{create_upload_session}
use seta_im_intern.Uploads.Commit.{commit_upload}
use seta_im_intern.Purge.Expire.{expire_upload_sessions}
use seta_im_intern.Purge.Objects.{
  ObjectKey, raw_key, processed_key, PurgeableMediaObjects, is_unpurged,
  claim_purgeable_media_objects,
}
use seta_im_intern.Purge.Sweep.{ObjectError, object_not_found, PurgeError, purge_batch}
use seta_im_intern.Purge.Once.{IsPurge, purge_batch-once}

-- The store logs what it deletes, and does not have the web rendition.
abbrev delete : ObjectKey → List ObjectKey → List ObjectKey × Result ObjectError (Unit {0})
delete (raw_key k) log = (raw_key k ∷ log, ok tt)
delete (processed_key org asset version web e) log = (log, err object_not_found)
delete (processed_key org asset version kind e) log =
    (processed_key org asset version kind e ∷ log, ok tt)

expires :
    map (λ s. s.state) (expire_upload_sessions 100000 (λ i j. 100000 + i) 5 opened).0.sessions
    ≡ SessionState.expired ∷ []
unfolding expire_upload_sessions create_upload_session
expires = refl

-- The commit stored 600 bytes, and its version failed at 300.
abbrev failed : Db
failed = record accepted {
  versions =
      update_row accepted.versions 20 (λ v. true)
        (λ v. record v { status = VersionStatus.failed; failed_at = some 300 });
}

abbrev batch : PurgeableMediaObjects
batch = record {
  upload_id = 30;
  version_id = some 20;
  org_id = 5;
  raw_object_key = 40;
  processed_object_keys =
      processed_key 5 10 20 thumbnail png_extension ∷ processed_key 5 10 20 web png_extension ∷ [];
  stored_bytes = 600;
}

claims : claim_purgeable_media_objects 400 100 5 failed ≡ ok (batch ∷ [])
unfolding claim_purgeable_media_objects create_upload_session commit_upload
claims = refl

in_quarantine : claim_purgeable_media_objects 399 100 5 failed ≡ ok []
unfolding claim_purgeable_media_objects create_upload_session commit_upload
in_quarantine = refl

abbrev first : (List ObjectKey × Db) × Result PurgeError (Unit {0})
first = purge_batch delete 400 batch ([], failed)

deletes : first.0.0 ≡ raw_key 40 ∷ processed_key 5 10 20 thumbnail png_extension ∷ []
unfolding purge_batch commit_upload create_upload_session
deletes = refl

abbrev usage : Usage
usage = record { raw_quota_bytes = 1000; reserved_raw_bytes = 0; stored_raw_bytes = 600 }

purge_batch-once_example :
    IsPurge delete 400 batch [] failed first
    × (first.1 ≡ ok tt → (purge_batch delete 500 batch first.0).0.1 ≡ first.0.1)
    × ((id : ℕ) (u : Usage)
        → batch.version_id ≡ some id
        → ltb 0 batch.stored_bytes ≡ true
        → failed.usage batch.org_id ≡ some u
        → any (is_unpurged batch) failed.sessions ≡ true
        → first.1 ≡ ok tt
        → first.0.1.usage batch.org_id
          ≡ some (record u { stored_raw_bytes = u.stored_raw_bytes - batch.stored_bytes }))
purge_batch-once_example = purge_batch-once delete 400 500 batch [] failed

-- The quota of the organization is free again.
frees : first.0.1.usage 5 ≡ some (record usage { stored_raw_bytes = 0 })
unfolding purge_batch create_upload_session commit_upload
frees = refl
