-- ===== src/Namespace/InMemory.antt =====
-- A storage backend in memory, for the examples.
use nimbus_store.Base.{ℕ, [], none, some, Option, take, drop}
use nimbus_store.Bytes.{Bytes}
use nimbus_store.OrderedMap.{Map, find, insert, erase}
use nimbus_store.Metadata.Types.{Result, done, failed, fine, not_found}
use nimbus_store.Storage.{StorageBackend}

abbrev read_object : Option Bytes → Result Bytes
read_object none = failed (not_found [])
read_object (some content) = done content

abbrev read_range : Option Bytes → ℕ → ℕ → Result Bytes
read_range none offset size = failed (not_found [])
read_range (some content) offset size = done (take size (drop offset content))

abbrev pub map_storage : StorageBackend
map_storage = record {
  State = Map;
  put = λ s key content. (fine, insert key content s);
  get = λ s key. read_object (find key s);
  delete = λ s key. (fine, erase key s);
  exists = λ s key. fine;
  get_range = λ s key offset size. read_range (find key s) offset size;
  batch_get = λ s keys. done [];
  health_check = λ s. fine;
  get_capacity = λ s. done (record { total_bytes = 0; used_bytes = 0; available_bytes = 0 });
}
