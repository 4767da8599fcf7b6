-- ===== src/Outbox.antt =====
-- repository/media_outbox_store.go of services/asset-core: the outbox as the relay's store.
pub mod Store
pub mod Moves
pub mod Order
