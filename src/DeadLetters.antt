-- ===== src/DeadLetters.antt =====
-- Isolation and replay of a notification: repository/media_dead_letter.go, eventing/outbox/replay.go
-- and eventing/media/dead_letter.go of services/asset-core.
pub mod Isolate
pub mod Replay
pub mod RoundTrip
