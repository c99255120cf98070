-- ===== src/Metadata/Interface.antt =====
-- The class `MetadataService` of include/nebulastore/metadata/metadata_service.h, an interface to
-- the parts above it, and `MetadataServiceImpl` as one of its implementations. The first argument of
-- an operation that reads the clock is the time.
use nimbus_store.Base.{ℕ, List}
use nimbus_store.Bytes.{Bytes}
use nimbus_store.SliceTree.{SliceInfo}
use nimbus_store.Metadata.Types.{Status, Result, FileMode, InodeAttr, Dentry}
use nimbus_store.Metadata.Store.{MetadataStore}
use nimbus_store.Metadata.Service
use nimbus_store.Metadata.Service.{FileLayout}

pub record MetadataService : Type 1 where
  pub State : Type 0
  pub create : ℕ → State → Bytes → FileMode → ℕ → ℕ → Status × State
  pub get_attr : State → Bytes → Result InodeAttr
  pub set_attr : ℕ → State → Bytes → InodeAttr → ℕ → Status × State
  pub unlink : State → Bytes → Status × State
  pub rmdir : State → Bytes → Status × State
  pub mkdir : ℕ → State → Bytes → FileMode → ℕ → ℕ → Status × State
  pub rename : State → Bytes → Bytes → Status × State
  pub readdir : State → Bytes → Result (List Dentry)
  pub get_layout : State → ℕ → Result FileLayout
  pub add_slice : State → ℕ → SliceInfo → Status × State
  pub update_size : ℕ → State → ℕ → ℕ → Status × State
  pub lookup_path : State → Bytes → Result ℕ

abbrev pub metadata_service : MetadataStore → MetadataService
metadata_service m = record {
  State = Service.Service m;
  create = Service.create m;
  get_attr = Service.get_attr m;
  set_attr = Service.set_attr m;
  unlink = λ svc path. (Service.unlink m svc path, svc);
  rmdir = λ svc path. (Service.rmdir m svc path, svc);
  mkdir = Service.mkdir m;
  rename = Service.rename m;
  readdir = Service.readdir m;
  get_layout = Service.get_layout m;
  add_slice = λ svc inode slice. (Service.add_slice m svc inode slice, svc);
  update_size = Service.update_size m;
  lookup_path = Service.lookup_path m;
}
