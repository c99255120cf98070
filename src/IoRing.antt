-- ===== src/IoRing.antt =====
-- The ring buffers of include/nebulastore/usrbio/ioring.h.
pub mod Ring
pub mod Masks
pub mod Places
pub mod Refine
pub mod Operations
mod Submissions
mod Tests
