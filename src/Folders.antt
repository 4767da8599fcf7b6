-- ===== src/Folders.antt =====
-- The folders of an organization and the deletion of a metadata item: repository/asset_repository.go
-- and its helpers of services/asset-core.
pub mod Rows
pub mod Change
pub mod Delete
pub mod Paths
pub mod Forest
pub mod Shift
pub mod Reads
pub mod Fenced
pub mod Kept
pub mod Moved
pub mod Deleted
pub mod Runs
