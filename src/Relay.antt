-- ===== src/Relay.antt =====
-- services/asset-core/internal/eventing/outbox/relay.go: the relay that publishes committed outbox
-- rows and marks them published once the broker has acknowledged them.
pub mod Drain
pub mod Backoff
pub mod Protocol
