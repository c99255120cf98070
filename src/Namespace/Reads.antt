-- ===== src/Namespace/Reads.antt =====
-- `Read` of src/namespace/service.cpp over `MetadataServiceImpl`.
use nimbus_store.Base.{ℕ, ◌≡◌, refl, Option-cases, inl, inr}
use nimbus_store.Bytes.{Bytes, codes}
use nimbus_store.Metadata.Types.{Status, failed, Result-cases, io, not_found}
use nimbus_store.Metadata.Store.{MetadataStore}
use nimbus_store.Metadata.Service.{FileLayout, locate_partition}
use nimbus_store.Metadata.Service
use nimbus_store.Metadata.Interface.{metadata_service}
use nimbus_store.Storage.{StorageBackend}
use nimbus_store.Namespace.Service.{World, posix_path_of, read}

-- `MetadataServiceImpl` returns layouts without slices: over it no read of any path succeeds, in no
-- state, also after a write that answered OK.
pub read_fails :
    (m : MetadataStore) (sb : StorageBackend) (to_string : ℕ → Bytes) (default_bucket : Bytes)
    (w : World (metadata_service m) sb to_string default_bucket) (path : Bytes) (offset size : ℕ)
    → (s : Status) × (read (metadata_service m) sb to_string default_bucket w path offset size
        ≡ failed s)
unfolding read Service.get_layout
read_fails m sb to_string default_bucket w path offset size =
    elim (Result-cases (
      Service.lookup_path m w.metadata
        (posix_path_of (metadata_service m) sb to_string default_bucket path))) [
          | inr (s, e) ↦ (s, rw e refl)
          | inl (inode, e) ↦ elim (Option-cases (locate_partition m w.metadata.partitions inode)) [
            | inl k ↦ (io (codes "No partition available"), rw (e, k) refl)
            | inr (i, k) ↦ (not_found (codes "No slice found for offset"), rw (e, k) refl)
          ]
        ]
