-- ===== src/Gateway.antt =====
-- `S3Gateway` of src/protocol/s3_gateway.cpp, the gateway over the namespace service.
pub mod Paths
pub mod Operations
pub mod Handlers
mod Requests
mod Tests
