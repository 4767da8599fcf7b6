-- ===== src/Media.antt =====
-- services/asset-core/internal/domain/media.go and the rows of infra/db/asset/migrations/V9:
-- the vocabulary of uploads and of media processing. An identifier (a UUID text), a worker's name
-- and a code is a number, and 0 is the empty text; an instant is a number of nanoseconds, and 0 is
-- the zero time.
use seta_im_intern.Prelude.{
  ℕ, Bool, true, false, not, ◌||◌, Option, none, some, List, [], ◌∷◌, ltb, leb, ◌==◌, Table,
}

-- A content type is a text; `other_type` is one that the service does not know.
pub data ContentType : Type 0 where
  jpeg png : ContentType
  other_type : ℕ → ContentType

pub data FileExtension : Type 0 where
  jpg_extension png_extension : FileExtension

unfoldable pub file_extension : ContentType → Option FileExtension
file_extension jpeg = some jpg_extension
file_extension png = some png_extension
file_extension (other_type n) = none

abbrev pub same_type : ContentType → ContentType → Bool
same_type jpeg jpeg = true
same_type png png = true
same_type (other_type a) (other_type b) = a == b
same_type _ _ = false

pub data SessionState : Type 0 where
  created committed expired cancelled failed : SessionState

abbrev pub is_created : SessionState → Bool
is_created created = true
is_created _ = false

abbrev pub is_committed : SessionState → Bool
is_committed committed = true
is_committed _ = false

unfoldable pub is_terminal : SessionState → Bool
is_terminal state = not (is_created state)

unfoldable pub is_published : SessionState → Bool
is_published state = is_created state || is_committed state

pub data VersionStatus : Type 0 where
  pending processing completed failed : VersionStatus

pub data JobStatus : Type 0 where
  queued processing completed failed : JobStatus

pub data Stage : Type 0 where
  validating transforming : Stage

-- An output kind is a text; `other_kind` is one that the manifest does not have.
pub data OutputKind : Type 0 where
  thumbnail web : OutputKind
  other_kind : ℕ → OutputKind

abbrev pub same_kind : OutputKind → OutputKind → Bool
same_kind thumbnail thumbnail = true
same_kind web web = true
same_kind (other_kind a) (other_kind b) = a == b
same_kind _ _ = false

pub record Policy : Type 0 where
  pub kind : OutputKind
  pub bounding_box_px : ℕ

abbrev pub output_manifest : List Policy
output_manifest =
    record { kind = thumbnail; bounding_box_px = 256 }
    ∷ record { kind = web; bounding_box_px = 1080 }
    ∷ []

abbrev pub checksum_byte_length : ℕ
checksum_byte_length = 32

pub record Usage : Type 0 where
  pub raw_quota_bytes : ℕ
  pub reserved_raw_bytes : ℕ
  pub stored_raw_bytes : ℕ

pub record Session : Type 0 where
  pub id : ℕ
  pub org_id : ℕ
  pub asset_id : ℕ
  pub requested_by : ℕ
  pub idempotency_key : ℕ
  pub request_fingerprint : List ℕ
  pub state : SessionState
  pub original_filename : ℕ
  pub declared_content_type : ContentType
  pub file_ext : FileExtension
  pub expected_size_bytes : ℕ
  pub declared_checksum : List ℕ
  pub raw_object_key : ℕ
  pub credential_expires_at : ℕ
  pub session_expires_at : ℕ
  pub committed_at : Option ℕ
  pub expired_at : Option ℕ
  pub cancelled_at : Option ℕ
  pub raw_object_purged_at : Option ℕ
  pub created_at : ℕ
  pub updated_at : ℕ

pub record Version : Type 0 where
  pub org_id : ℕ
  pub asset_id : ℕ
  pub upload_id : ℕ
  pub requested_by : ℕ
  pub status : VersionStatus
  pub raw_object_key : ℕ
  pub raw_retained : Bool
  pub declared_content_type : ContentType
  pub detected_content_type : Option ContentType
  pub original_size_bytes : ℕ
  pub sha256 : List ℕ
  pub source_width : Option ℕ
  pub source_height : Option ℕ
  pub failure_code : Option ℕ
  pub completed_at : Option ℕ
  pub failed_at : Option ℕ
  pub activated_at : Option ℕ
  pub created_at : ℕ

pub record Output : Type 0 where
  pub version_id : ℕ
  pub kind : OutputKind
  pub object_key : ℕ
  pub content_type : ContentType
  pub width : ℕ
  pub height : ℕ
  pub size_bytes : ℕ
  pub sha256 : List ℕ

pub record Job : Type 0 where
  pub org_id : ℕ
  pub asset_id : ℕ
  pub version_id : ℕ
  pub status : JobStatus
  pub stage : Option Stage
  pub attempt_count : ℕ
  pub next_attempt_at : ℕ
  pub lease_owner : Option ℕ
  pub lease_expires_at : Option ℕ
  pub last_error_code : Option ℕ
  pub notification_isolated_at : Option ℕ
  pub queued_at : ℕ
  pub started_at : Option ℕ
  pub completed_at : Option ℕ
  pub failed_at : Option ℕ

pub record JobLease : Type 0 where
  pub owner : ℕ
  pub expires_at : ℕ

unfoldable pub is_zero : JobLease → Bool
is_zero lease = lease.owner == 0 || lease.expires_at == 0

pub data OutboxStatus : Type 0 where
  pending publishing published : OutboxStatus

pub record OutboxRow : Type 0 where
  pub id : ℕ
  pub job_id : ℕ
  pub event_type : ℕ
  pub schema_version : ℕ
  pub payload : List ℕ
  pub status : OutboxStatus
  pub attempt_count : ℕ
  pub next_attempt_at : ℕ
  pub lease_owner : Option ℕ
  pub lease_expires_at : Option ℕ
  pub last_error_code : Option ℕ
  pub published_at : Option ℕ
  pub created_at : ℕ

-- A row of `metadata_items` joined with its folder, as far as media reads it.
pub record Asset : Type 0 where
  pub org_id : ℕ
  pub active_media_version_id : Option ℕ
  pub pending_media_version_id : Option ℕ
  pub deleted_at : Option ℕ
  pub folder_deleted_at : Option ℕ
  pub updated_by : Option ℕ

-- The tables. Those that the code scans are lists, in the order of insertion; the last two are the
-- unique indexes by which a version is found from its upload and a job from its version.
pub record Db : Type 0 where
  pub usage : Table Usage
  pub sessions : List Session
  pub versions : Table Version
  pub jobs : Table Job
  pub assets : Table Asset
  pub outputs : List Output
  pub outbox : List OutboxRow
  pub version_by_upload : Table ℕ
  pub job_by_version : Table ℕ

-- `expires IS NULL OR expires <= now`
abbrev pub lapsed : Option ℕ → ℕ → Bool
lapsed none now = true
lapsed (some t) now = leb t now

-- `expires > now`, which NULL never satisfies.
abbrev pub is_live : Option ℕ → ℕ → Bool
is_live none now = false
is_live (some t) now = ltb now t
