-- ===== src/Reader.antt =====
-- The reader of a partition: eventing/kafka/reader.go of services/asset-core.
pub mod Loop
pub mod Delivered
pub mod Served
pub mod Live
