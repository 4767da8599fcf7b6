-- ===== src/Purge/Objects.antt =====
-- ClaimPurgeableMediaObjects and MarkMediaObjectsPurged of repository/media_purge.go, with
-- ProcessedObjectKey of domain/media.go, and PurgeOnce of usecase/media_purge.go over an object store. A
-- key of a processed object is the tuple that its text is made of.
use seta_im_intern.Prelude.{
  ℕ, ◌+◌, Bool, true, false, not, ◌&&◌, Option, none, some, List, [], ◌∷◌, filter, take, sort_by,
  ltb, leb, ◌==◌, if◌then◌else◌, any, is_null, update_row, Result, ok, err, ◌>>=◌, ◌>>◌,
  transaction,
}
use seta_im_intern.Media.{
  Db, Session, SessionState, Version, VersionStatus, OutputKind, thumbnail, web, other_kind,
  ContentType, FileExtension, file_extension, Policy, output_manifest,
}
use seta_im_intern.Uploads.Rows.{UploadError, update_sessions}
use seta_im_intern.Uploads.Quota.{release_stored_bytes}
use seta_im_intern.Purge.Expire.{usage_row}

pub data ObjectKey : Type 0 where
  raw_key : ℕ → ObjectKey
  processed_key : ℕ → ℕ → ℕ → OutputKind → FileExtension → ObjectKey

pub data KeyError : Type 0 where
  unsupported_media_type unknown_output_kind : KeyError

abbrev pub has_object_name : OutputKind → Bool
has_object_name thumbnail = true
has_object_name web = true
has_object_name (other_kind n) = false

abbrev pub extension_or : Option FileExtension → Result KeyError FileExtension
extension_or none = err unsupported_media_type
extension_or (some e) = ok e

unfoldable pub processed_object_key :
    ℕ → ℕ → ℕ → OutputKind → ContentType → Result KeyError ObjectKey
unfolding file_extension
processed_object_key org asset version kind content_type = do
  extension ← extension_or (file_extension content_type)
  (if not (has_object_name kind)
      then err unknown_output_kind
      else ok (processed_key org asset version kind extension))

pub record PurgeableMediaObjects : Type 0 where
  pub upload_id : ℕ
  pub version_id : Option ℕ
  pub org_id : ℕ
  pub raw_object_key : ℕ
  pub processed_object_keys : List ObjectKey
  pub stored_bytes : ℕ

-- The session's row with the row of its version, by a LEFT JOIN.
abbrev pub joined_version : Db → Option ℕ → Option (ℕ × Version)
joined_version db none = none
joined_version db (some id) = elim (db.versions id) [ none ↦ none | some v ↦ some (id, v) ]

abbrev pub version_of : Db → Session → Option (ℕ × Version)
version_of db s = joined_version db (db.version_by_upload s.id)

abbrev pub is_abandoned_state : SessionState → Bool
is_abandoned_state SessionState.expired = true
is_abandoned_state SessionState.cancelled = true
is_abandoned_state SessionState.failed = true
is_abandoned_state _ = false

abbrev pub is_failed : VersionStatus → Bool
is_failed VersionStatus.failed = true
is_failed _ = false

abbrev pub coalesce : Option ℕ → Option ℕ → Option ℕ
coalesce none y = y
coalesce (some x) y = some x

-- `t <= now - quarantine`
abbrev pub is_before_quarantine : ℕ → ℕ → Option ℕ → Bool
is_before_quarantine now quarantine none = false
is_before_quarantine now quarantine (some t) = leb (t + quarantine) now

abbrev pub is_dead : ℕ → ℕ → Session → Option (ℕ × Version) → Bool
is_dead now quarantine s none =
    is_abandoned_state s.state
    && is_before_quarantine now quarantine (coalesce s.cancelled_at s.expired_at)
is_dead now quarantine s (some (id, v)) =
    is_failed v.status && is_before_quarantine now quarantine v.failed_at

unfoldable pub is_purgeable : Db → ℕ → ℕ → Session → Bool
is_purgeable db now quarantine s =
    is_null s.raw_object_purged_at && is_dead now quarantine s (version_of db s)

abbrev pub failed_at_of : Option (ℕ × Version) → Option ℕ
failed_at_of none = none
failed_at_of (some (id, v)) = v.failed_at

abbrev pub died_first : Option ℕ → Option ℕ → Bool
died_first (some a) (some b) = leb a b
died_first (some a) none = true
died_first none b = is_null b

abbrev pub is_claimed_first : Db → Session → Session → Bool
is_claimed_first db a b =
    died_first (coalesce a.cancelled_at (coalesce a.expired_at (failed_at_of (version_of db a))))
      (coalesce b.cancelled_at (coalesce b.expired_at (failed_at_of (version_of db b))))

abbrev pub processed_keys : ℕ → ℕ → ℕ → ContentType → List Policy → Result KeyError (List ObjectKey)
processed_keys org asset version content_type [] = ok []
processed_keys org asset version content_type (policy ∷ policies) = do
  key ← processed_object_key org asset version policy.kind content_type
  keys ← processed_keys org asset version content_type policies
  ok (key ∷ keys)

unfoldable pub batch_of : Session → Option (ℕ × Version) → Result KeyError PurgeableMediaObjects
unfolding processed_object_key
batch_of s none = ok (record {
  upload_id = s.id;
  version_id = none;
  org_id = s.org_id;
  raw_object_key = s.raw_object_key;
  processed_object_keys = [];
  stored_bytes = 0;
})
batch_of s (some (id, v)) = do
  keys ← processed_keys s.org_id s.asset_id id v.declared_content_type output_manifest
  ok (record {
    upload_id = s.id;
    version_id = some id;
    org_id = s.org_id;
    raw_object_key = s.raw_object_key;
    processed_object_keys = keys;
    stored_bytes = v.original_size_bytes;
  })

unfoldable pub batches_of : Db → List Session → Result KeyError (List PurgeableMediaObjects)
unfolding batch_of
batches_of db [] = ok []
batches_of db (s ∷ sessions) = do
  batch ← batch_of s (version_of db s)
  batches ← batches_of db sessions
  ok (batch ∷ batches)

unfoldable pub claim_purgeable_media_objects :
    ℕ → ℕ → ℕ → Db → Result KeyError (List PurgeableMediaObjects)
unfolding is_purgeable batches_of
claim_purgeable_media_objects now quarantine limit db =
    if limit == 0
    then ok []
    else batches_of db (
        take limit
          (sort_by (is_claimed_first db) (filter (is_purgeable db now quarantine) db.sessions)))

abbrev pub is_unpurged : PurgeableMediaObjects → Session → Bool
is_unpurged purged s =
    s.id == purged.upload_id && (s.org_id == purged.org_id && is_null s.raw_object_purged_at)

abbrev pub purged_session : ℕ → Session → Session
purged_session now s = record s { raw_object_purged_at = some now; updated_at = now }

-- The row of the quota, locked where bytes are to be released.
abbrev pub locked_usage : PurgeableMediaObjects → Db → Result UploadError (Unit {0})
locked_usage purged db =
    if ltb 0 purged.stored_bytes then (usage_row (db.usage purged.org_id) >>= λ u. ok tt) else ok tt

abbrev pub drop_version : PurgeableMediaObjects → Option ℕ → Db → Db
drop_version purged none db = db
drop_version purged (some id) db =
    let dropped = record db {
      outputs = filter (λ o. not (o.version_id == id)) db.outputs;
      versions = update_row db.versions id (λ _. true) (λ v. record v { raw_retained = false });
    } in
    if ltb 0 purged.stored_bytes
    then release_stored_bytes purged.org_id purged.stored_bytes dropped
    else dropped

unfoldable pub mark_work : ℕ → PurgeableMediaObjects → Db → Result UploadError (Db × Unit {0})
unfolding release_stored_bytes
mark_work now purged db = do
  locked_usage purged db
  (if any (is_unpurged purged) db.sessions
      then ok (
        drop_version purged purged.version_id (record db {
          sessions = update_sessions (is_unpurged purged) (purged_session now) db.sessions;
        }),
        tt,
      )
      else ok (db, tt))

unfoldable pub mark_media_objects_purged :
    ℕ → PurgeableMediaObjects → Db → Db × Result UploadError (Unit {0})
unfolding mark_work
mark_media_objects_purged now purged db = transaction (mark_work now purged) db
