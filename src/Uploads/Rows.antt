-- ===== src/Uploads/Rows.antt =====
-- What the operations on upload sessions share: requests, errors, and the rows that they lock
-- (media_repository.go).
use seta_im_intern.Prelude.{
  ℕ, suc, Bool, ◌&&◌, ◌||◌, Option, none, some, List, [], ◌∷◌, ◌==◌, if◌then◌else◌, is_null,
  is_some, Result, ok, err,
}
use seta_im_intern.Media.{Db, Session, Asset, ContentType, is_created}

pub data UploadError : Type 0 where
  quota_exceeded upload_in_progress upload_not_found idempotency_conflict : UploadError
  upload_state_conflict upload_session_expired asset_not_available : UploadError
  media_object_mismatch unsupported_media_type quota_not_positive : UploadError
  record_not_found duplicate_key event_not_built : UploadError

pub record CreateRequest : Type 0 where
  pub org_id : ℕ
  pub asset_id : ℕ
  pub requested_by : ℕ
  pub idempotency_key : ℕ
  pub original_filename : ℕ
  pub declared_content_type : ContentType
  pub expected_size_bytes : ℕ
  pub declared_checksum : List ℕ

pub record CreateOptions : Type 0 where
  pub upload_id : ℕ
  pub raw_object_key : ℕ
  pub default_quota_bytes : ℕ
  pub credential_expires_at : ℕ
  pub session_expires_at : ℕ

pub record Scope : Type 0 where
  pub org_id : ℕ
  pub asset_id : ℕ
  pub upload_id : ℕ
  pub requested_by : ℕ

-- The application clock, at each of its readings in one call.
abbrev pub Readings : Type 0
Readings = ℕ → ℕ

abbrev pub is_active_in : ℕ → Asset → Bool
is_active_in org_id a = a.org_id == org_id && (is_null a.deleted_at && is_null a.folder_deleted_at)

abbrev pub active_or_refuse : ℕ → Option Asset → Result UploadError Asset
active_or_refuse org_id none = err asset_not_available
active_or_refuse org_id (some a) = if is_active_in org_id a then ok a else err asset_not_available

unfoldable pub lock_active_asset : ℕ → ℕ → Db → Result UploadError Asset
lock_active_asset org_id asset_id db = active_or_refuse org_id (db.assets asset_id)

abbrev pub has_pending_version : Asset → Bool
has_pending_version a = is_some a.pending_media_version_id

abbrev pub in_scope : Scope → Session → Bool
in_scope scope s =
    s.id == scope.upload_id
    && (s.org_id == scope.org_id
        && (s.asset_id == scope.asset_id
            && (scope.requested_by == 0 || s.requested_by == scope.requested_by)))

-- The first session that a WHERE clause selects.
abbrev pub find_session : (Session → Bool) → List Session → Option Session
find_session p [] = none
find_session p (s ∷ ss) = if p s then some s else find_session p ss

-- UPDATE … WHERE p.
abbrev pub update_sessions : (Session → Bool) → (Session → Session) → List Session → List Session
update_sessions p f [] = []
update_sessions p f (s ∷ ss) = (if p s then f s else s) ∷ update_sessions p f ss

abbrev pub count_sessions : (Session → Bool) → List Session → ℕ
count_sessions p [] = 0
count_sessions p (s ∷ ss) = let rest = count_sessions p ss in if p s then suc rest else rest

abbrev pub found_or_refuse : Option Session → Result UploadError Session
found_or_refuse none = err upload_not_found
found_or_refuse (some s) = ok s

unfoldable pub lock_upload_session_row : Scope → Db → Result UploadError Session
lock_upload_session_row scope db = found_or_refuse (find_session (in_scope scope) db.sessions)

abbrev pub is_open_for : ℕ → Session → Bool
is_open_for id s = s.id == id && is_created s.state
