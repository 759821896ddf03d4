-- ===== src/Bundles.antt =====
-- Package internal/bundles: bundle lists, the files that publish them, and their updates.
pub mod BundleList
pub mod Header
pub mod ListFile
pub mod Provider
