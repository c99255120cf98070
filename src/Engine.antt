-- ===== src/Engine.antt =====
-- The key-value metadata engine of include/nebulastore/metadata/meta_engine.h.
pub mod Client
pub mod Codec
pub mod Operations
pub mod Reads
pub mod Keys
pub mod Entries
pub mod Listing
mod Tests
