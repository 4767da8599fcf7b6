-- ===== src/Uploads.antt =====
-- services/asset-core/internal/repository/media_repository.go: upload sessions, the quota that they
-- reserve, and the acceptance of an upload.
pub mod Rows
pub mod Quota
pub mod Sessions
pub mod Close
pub mod Commit
pub mod Ledger
pub mod Replays
pub mod Closed
