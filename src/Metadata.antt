-- ===== src/Metadata.antt =====
-- The file system metadata: include/nebulastore/common/types.h,
-- include/nebulastore/metadata/metadata_service.h, src/metadata/metadata_partition.cpp and
-- src/metadata/metadata_service_impl.cpp.
pub mod Types
pub mod Paths
pub mod Store
pub mod Partitions
pub mod Service
pub mod Interface
pub mod Walks
pub mod Created
pub mod Taken
pub mod Sizes
pub mod RocksdbStore
mod Tests
