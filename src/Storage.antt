-- ===== src/Storage.antt =====
-- The class `StorageBackend` of include/nebulastore/storage/backend.h.
pub mod Local
mod Files
mod Tests
use nimbus_store.Base.{ℕ, List}
use nimbus_store.Bytes.{Bytes}
use nimbus_store.Metadata.Types.{Status, Result}

pub record CapacityInfo : Type 0 where
  pub total_bytes : ℕ
  pub used_bytes : ℕ
  pub available_bytes : ℕ

pub record StorageBackend : Type 1 where
  pub State : Type 0
  pub put : State → Bytes → Bytes → Status × State
  pub get : State → Bytes → Result Bytes
  pub delete : State → Bytes → Status × State
  pub exists : State → Bytes → Status
  pub get_range : State → Bytes → ℕ → ℕ → Result Bytes
  pub batch_get : State → List Bytes → Result (List Bytes)
  pub health_check : State → Status
  pub get_capacity : State → Result CapacityInfo
