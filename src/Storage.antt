-- ===== src/Storage.antt =====
-- The storage of solutions/solution23_columnar_storage.go and solutions/solution24_object_storage.go.
pub mod ConsistentHash
pub mod Content
pub mod Columns
pub mod Buckets
pub mod Erasure
pub mod Checks
