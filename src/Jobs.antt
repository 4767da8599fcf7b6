-- ===== src/Jobs.antt =====
-- services/asset-core/internal/repository/media_job_store.go and media_promotion.go: the rows of
-- media_processing_jobs, which a worker claims under a lease, renews, and settles.
pub mod Rows
pub mod Claim
pub mod Renew
pub mod Settle
pub mod Promote
pub mod Moves
pub mod Runs
pub mod Leases
pub mod Outputs
pub mod Atomic
