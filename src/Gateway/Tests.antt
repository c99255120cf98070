-- ===== src/Gateway/Tests.antt =====
-- The gateway over the services in memory.
use nimbus_store.Base.{[], All, ◌≡◌, ◌≢◌, arith}
use nimbus_store.Bytes.{Bytes, codes}
use nimbus_store.Metadata.RocksdbStore.InMemory.{in_memory, digit}
use nimbus_store.Metadata.Interface.{metadata_service}
use nimbus_store.Namespace.{slash}
use nimbus_store.Namespace.Service.{World}
use nimbus_store.Namespace.InMemory.{map_storage}
use nimbus_store.Gateway.Handlers.{handle_get, error_response}
use nimbus_store.Gateway.Requests.{get_fails}

no_slash : All (λ c. c ≢ slash) (codes "b")
no_slash = (λ e. absurd (omega (arith, e)), tt)

abbrev no_files : World (metadata_service in_memory) map_storage digit (codes "x")
no_files = record { metadata = record { partitions = []; next_inode = 2 }; storage = [] }

get_fails_example :
    (code : Bytes) × (message : Bytes) × (handle_get
        (metadata_service in_memory)
        map_storage
        digit
        digit
        digit
        (codes "x")
        no_files
        (codes "/b/k")
      ≡ error_response code message)
get_fails_example =
    get_fails in_memory map_storage digit digit digit (codes "x") no_files 98 [] 107 [] no_slash
