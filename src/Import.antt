-- ===== src/Import.antt =====
-- The import of a dataset of folders and metadata items: usecase/asset_usecase_import.go and
-- domain/import.go of services/asset-core.
pub mod Dataset
pub mod Sort
pub mod Linked
pub mod Counting
pub mod Reached
pub mod Order
pub mod Text
pub mod Validate
pub mod Accepted
pub mod Place
pub mod Upsert
pub mod Totals
pub mod Mirrored
pub mod Kept
