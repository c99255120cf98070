-- ===== src/Metadata/RocksdbStore.antt =====
-- `RocksDBStore` and `RocksDBTransaction` of src/metadata/rocksdb_store.cpp.
pub mod Words
mod Shifts
mod IntWords
pub mod Values
pub mod RoundTrip
pub mod Keys
pub mod Operations
pub mod Reads
pub mod Listing
pub mod Laws
pub mod InMemory
mod Tests
