-- ===== src/Consumer.antt =====
-- services/asset-core/internal/eventing/consume: the consumer of the events.
pub mod Parse
pub mod Deliver
pub mod Protocol
pub mod Routing
