-- ===== src/S3.antt =====
-- The S3 protocol: include/nebulastore/protocol/s3_*.h.
pub mod Encoding
pub mod Meta
pub mod Backend
pub mod Store
pub mod Types
pub mod Router
pub mod Xml
pub mod Platform
pub mod Handler
mod Tests
