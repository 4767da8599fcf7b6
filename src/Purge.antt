-- ===== src/Purge.antt =====
-- The sweep of abandoned sessions and of dead storage: repository/media_purge.go and
-- usecase/media_purge.go of services/asset-core.
pub mod Expire
pub mod Objects
pub mod Sweep
pub mod Balanced
pub mod Released
pub mod Deleted
pub mod Once
