-- ===== src/Uploads/Sessions.antt =====
-- CreateUploadSession, GetUploadSession, RefreshUploadSession, CancelUploadSession and
-- ExpireUploadSession of media_repository.go. SHA-256 is an argument.
use seta_im_intern.Prelude.{
  same_bytes, ℕ, ◌+◌, Bool, true, false, not, ◌&&◌, ◌||◌, Option, none, some, List, [], ◌∷◌, ◌++◌,
  leb, ◌==◌, if◌then◌else◌, is_some, ltb, ◌||◌, Result, ok, err, ◌>>=◌, ◌>>◌, refuse_if,
  transaction,
}
use seta_im_intern.Media.{
  Db, Session, created, Asset, ContentType, jpeg, png, other_type, FileExtension, file_extension,
  is_created, is_published,
}
use seta_im_intern.Uploads.Rows.{
  UploadError, is_open_for, update_sessions, upload_state_conflict, upload_in_progress,
  idempotency_conflict, upload_session_expired, unsupported_media_type, quota_not_positive,
  CreateRequest, CreateOptions, Scope, Readings, lock_active_asset, has_pending_version,
  find_session, count_sessions, lock_upload_session_row,
}
use seta_im_intern.Uploads.Quota.{
  lock_organization_usage_row, reserve_quota, reclaim_expired_sessions,
}

abbrev pub type_code : ContentType → ℕ
type_code jpeg = 0
type_code png = 1
type_code (other_type n) = n + 2

-- The canonical text is its list of fields; the digest is SHA-256.
unfoldable pub upload_request_fingerprint : (List ℕ → List ℕ) → CreateRequest → List ℕ
upload_request_fingerprint digest request = digest (
    request.asset_id
    ∷ request.original_filename
    ∷ type_code request.declared_content_type
    ∷ request.expected_size_bytes
    ∷ request.declared_checksum)

abbrev pub same_operation : CreateRequest → Session → Bool
same_operation request s =
    s.org_id == request.org_id
    && (s.asset_id == request.asset_id
        && (s.requested_by == request.requested_by && s.idempotency_key == request.idempotency_key))

-- The unique indexes of media_upload_sessions that a new row can meet.
abbrev pub violates_unique : Session → List Session → Bool
violates_unique new ss =
    is_some (find_session (λ s. s.id == new.id || s.raw_object_key == new.raw_object_key) ss)

unfoldable pub insert_session : Session → Db → Result UploadError Db
insert_session new db =
    if violates_unique new db.sessions
    then err upload_in_progress
    else ok (record db { sessions = db.sessions ++ new ∷ [] })

abbrev pub replayed_session : List ℕ → Session → Db → Result UploadError (Db × (Session × Bool))
replayed_session fingerprint existing db =
    if not (same_bytes existing.request_fingerprint fingerprint)
    then err idempotency_conflict
    else if not (is_published existing.state)
    then err idempotency_conflict
    else ok (db, (existing, true))

unfoldable pub new_session : List ℕ → FileExtension → ℕ → CreateRequest → CreateOptions → Session
new_session fingerprint extension now request options = record {
  id = options.upload_id;
  org_id = request.org_id;
  asset_id = request.asset_id;
  requested_by = request.requested_by;
  idempotency_key = request.idempotency_key;
  request_fingerprint = fingerprint;
  state = created;
  original_filename = request.original_filename;
  declared_content_type = request.declared_content_type;
  file_ext = extension;
  expected_size_bytes = request.expected_size_bytes;
  declared_checksum = request.declared_checksum;
  raw_object_key = options.raw_object_key;
  credential_expires_at = options.credential_expires_at;
  session_expires_at = options.session_expires_at;
  committed_at = none;
  expired_at = none;
  cancelled_at = none;
  raw_object_purged_at = none;
  created_at = now;
  updated_at = now;
}

abbrev pub is_open_on : ℕ → Session → Bool
is_open_on asset_id s = s.asset_id == asset_id && is_created s.state

module _ (at : Readings) (request : CreateRequest) (options : CreateOptions) where
  -- The reservation and the row, once the expired sessions are reclaimed.
  unfoldable pub open_session :
      List ℕ → FileExtension → Db → Result UploadError (Db × (Session × Bool))
  unfolding reserve_quota insert_session new_session
  open_session fingerprint extension db = do
    refuse_if (not (count_sessions (is_open_on request.asset_id) db.sessions == 0))
        upload_in_progress
    reserved ← reserve_quota request.org_id request.expected_size_bytes db
    let session = new_session fingerprint extension (at 1) request options
    inserted ← insert_session session reserved
    ok (inserted, (session, false))

  -- A request that no earlier one made.
  unfoldable pub admit_session :
      List ℕ → FileExtension → Asset → Db → Result UploadError (Db × (Session × Bool))
  unfolding reclaim_expired_sessions open_session
  admit_session fingerprint extension asset db =
      if has_pending_version asset
      then err upload_in_progress
      else open_session fingerprint extension
          (reclaim_expired_sessions request.org_id request.asset_id (at 0) db)

  abbrev pub admit_or_replay :
      List ℕ
      → FileExtension
      → Asset
      → Db
      → Option Session
      → Result UploadError (Db × (Session × Bool))
  admit_or_replay fingerprint extension asset db (some existing) =
      replayed_session fingerprint existing db
  admit_or_replay fingerprint extension asset db none = admit_session fingerprint extension asset db

  unfoldable pub create_work :
      List ℕ → FileExtension → Db → Result UploadError (Db × (Session × Bool))
  unfolding lock_organization_usage_row lock_active_asset admit_session
  create_work fingerprint extension db = do
    let locked = lock_organization_usage_row request.org_id options.default_quota_bytes db
    asset ← lock_active_asset request.org_id request.asset_id locked
    admit_or_replay fingerprint extension asset locked
        (find_session (same_operation request) locked.sessions)

  abbrev pub create_as :
      (List ℕ → List ℕ) → Db → Option FileExtension → Db × Result UploadError (Session × Bool)
  create_as digest db none = (db, err unsupported_media_type)
  create_as digest db (some extension) =
      if options.default_quota_bytes == 0
      then (db, err quota_not_positive)
      else transaction (create_work (upload_request_fingerprint digest request) extension) db

  unfoldable pub create_upload_session :
      (List ℕ → List ℕ) → Db → Db × Result UploadError (Session × Bool)
  unfolding upload_request_fingerprint file_extension create_work
  create_upload_session digest db =
      create_as digest db (file_extension request.declared_content_type)

unfoldable pub get_upload_session : ℕ → Scope → Db → Result UploadError Session
unfolding lock_active_asset lock_upload_session_row
get_upload_session now scope db = do
  asset ← lock_active_asset scope.org_id scope.asset_id db
  session ← lock_upload_session_row scope db
  refuse_if (is_created session.state && leb session.session_expires_at now) upload_session_expired
  ok session

abbrev pub is_outside : ℕ → ℕ → Session → Bool
is_outside credential_expires_at now session =
    not (ltb now credential_expires_at) || ltb session.session_expires_at credential_expires_at

abbrev pub refreshed_session : ℕ → ℕ → Session → Session
refreshed_session credential_expires_at now s = record s {
  credential_expires_at = credential_expires_at;
  updated_at = now;
}

unfoldable pub refresh_work : ℕ → Scope → ℕ → Db → Result UploadError (Db × Session)
unfolding lock_active_asset lock_upload_session_row
refresh_work now scope credential_expires_at db = do
  asset ← lock_active_asset scope.org_id scope.asset_id db
  session ← lock_upload_session_row scope db
  refuse_if (not (is_created session.state)) upload_state_conflict
  refuse_if (leb session.session_expires_at now) upload_session_expired
  refuse_if (is_outside credential_expires_at now session) upload_session_expired
  refuse_if (not (is_some (find_session (is_open_for session.id) db.sessions)))
      upload_state_conflict
  ok (
    record db {
      sessions =
          update_sessions (is_open_for session.id) (refreshed_session credential_expires_at now)
            db.sessions;
    },
    refreshed_session credential_expires_at now session,
  )

unfoldable pub refresh_upload_session : ℕ → Scope → ℕ → Db → Db × Result UploadError Session
unfolding refresh_work
refresh_upload_session now scope credential_expires_at =
    transaction (refresh_work now scope credential_expires_at)
