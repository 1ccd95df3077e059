-- ===== src/Storage.antt =====
-- The storage backends of src/storage.
pub mod BTreeMap
pub mod Backend
pub mod Faults
pub mod LocalFile
pub mod Sqlite
pub mod AnyBackend
