-- ===== src/Sync.antt =====
-- The synchronisation of coroutines: include/nebulastore/common/semaphore.h.
pub mod Semaphore
mod Accounts
mod Tests
