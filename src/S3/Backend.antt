-- ===== src/S3/Backend.antt =====
-- The class `MetadataBackend` of include/nebulastore/protocol/s3_metadata.h, and its
-- implementation `RocksDBBackend` of include/nebulastore/protocol/s3_backend_rocksdb.h.
pub mod Laws
use nimbus_store.Base.{
  ℕ, suc, List, [], ◌∷◌, Bool, true, false, Option, none, some, map, if◌then◌else◌,
}
use nimbus_store.Base.Int.{ℤ, reached}
use nimbus_store.Bytes.{Bytes, starts_with}
use nimbus_store.OrderedMap.{Map}
use nimbus_store.Rocksdb.{Rocksdb, ReadResult, found, not_found, read_error, batch_put}

-- A write returns whether it succeeded. `get` returns the value where the source returns true.
pub record MetadataBackend : Type 1 where
  pub State : Type 0
  pub put : State → Bytes → Bytes → State × Bool
  pub get : State → Bytes → Option Bytes
  pub delete : State → Bytes → State × Bool
  pub exists : State → Bytes → Bool
  pub batch_put : State → Map → State × Bool
  pub scan : State → Bytes → ℤ → Map

abbrev pub ok_status : Option Bytes → Bool
ok_status none = true
ok_status (some e) = false

abbrev pub ok_read : ReadResult → Option Bytes
ok_read (found v) = some v
ok_read not_found = none
ok_read (read_error e) = none

abbrev pub read_is_ok : ReadResult → Bool
read_is_ok (found v) = true
read_is_ok not_found = false
read_is_ok (read_error e) = false

-- the loop of `Scan` over the iterator; `size` is `result.size()`
unfoldable pub scan_loop : Bytes → ℤ → ℕ → Map → Map
scan_loop prefix limit size [] = []
scan_loop prefix limit size (e ∷ rest) =
    if starts_with prefix e.0
    then e ∷ (if reached limit (suc size) then [] else scan_loop prefix limit (suc size) rest)
    else []

abbrev pub rocksdb_backend : Rocksdb → MetadataBackend
rocksdb_backend r = record {
  State = r.Db;
  put = λ d k v. let (d', status) = r.put d k v in (d', ok_status status);
  get = λ d k. ok_read (r.get d k);
  delete = λ d k. let (d', status) = r.delete d k in (d', ok_status status);
  exists = λ d k. read_is_ok (r.get d k);
  batch_put = λ d kvs.
      let (d', status) = r.write d (map (λ e. batch_put e.0 e.1) kvs) in (d', ok_status status);
  scan = λ d prefix limit. scan_loop prefix limit 0 (r.seek d prefix).0;
}
