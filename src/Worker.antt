-- ===== src/Worker.antt =====
-- usecase/media_worker.go and media_lease.go, cmd/media-worker/effect.go and
-- repository/media_notification.go of services/asset-core: the worker that processes a job.
pub mod Lease
pub mod Job
pub mod Notify
pub mod Fenced
pub mod Redelivery
