-- ===== src/Engine/Tests.antt =====
-- The engine over a database in memory.
use nimbus_store.Base.{◌-◌, ◌*◌, ◌^◌, List, [], ◌∷◌, some, ◌≡◌, refl, arith}
use nimbus_store.Bytes.{codes, cmp}
use nimbus_store.Bytes.Words.{be_bytes}
use nimbus_store.OrderedMap.{insert}
use nimbus_store.Rocksdb.{apply_op, apply_batch}
use nimbus_store.Rocksdb.InMemory.{Memory, write_memory, memory, memory-IsOrderedStore}
use nimbus_store.SliceTree.{SliceInfo}
use nimbus_store.Metadata.Types.{done, regular, directory, FileMode, InodeAttr, type_code}
use nimbus_store.Metadata.Store.{fresh_attr}
use nimbus_store.Engine.Client.{
  KvClient, IsOrderedClient, rocksdb_client, rocksdb_client-IsOrderedClient,
}
use nimbus_store.Engine.Codec.{encode_slice_value, encode_dentry_value}
use nimbus_store.Engine.Operations.{
  set_attr, get_attr, lookup, create_dentry, readdir, add_slice, get_layout,
}
use nimbus_store.Engine.Reads.{get_attr-set_attr, lookup-create_dentry}
use nimbus_store.Engine.Entries.{
  Entry, child, piece, Holds, creates_dentry, run_write, IsEngineState, run_write-IsEngineState,
}
use nimbus_store.Engine.Listing.{readdir-children, get_layout-pieces, readdir-last}

abbrev client : KvClient
client = rocksdb_client memory

abbrev ordered : IsOrderedClient client
ordered = rocksdb_client-IsOrderedClient memory memory-IsOrderedStore

abbrev empty : Memory
empty = record { content = []; order = tt; room = 100 }

abbrev plain : FileMode
plain = record { mode = 420 }

abbrev attr : InodeAttr
attr = record (fresh_attr 7 300 plain 1 2) { size = 70000 }

abbrev slice : SliceInfo
slice = record { slice_id = 5; offset = 4096; size = 300; storage_key = codes "chunks/2/4096" }

get_attr-set_attr_example :
    (get_attr client (set_attr client empty 300 attr 1).0 300 ≡ done (some attr))
    × (lookup client (set_attr client empty 300 attr 1).0 1 (codes "a")
        ≡ lookup client empty 1 (codes "a"))
unfolding set_attr write_memory
get_attr-set_attr_example =
    get_attr-set_attr client ordered empty 300 1 300 1 (codes "a") attr (omega arith) (omega arith)
      (omega arith) refl

-- "a" and "b" in the directory 1
abbrev with_a : Memory
with_a = (create_dentry client empty 1 (codes "a") 300 regular).0

lookup-create_dentry_example :
    (lookup client with_a 1 (codes "a")
      ≡ done (some (record { name = codes "a"; inode_id = 300; type = regular })))
    × (get_attr client with_a 300 ≡ get_attr client empty 300)
unfolding create_dentry write_memory cmp
lookup-create_dentry_example =
    lookup-create_dentry client ordered empty 1 300 1 300 (codes "a") (codes "a") regular
      (omega arith) (omega arith) (omega arith) tt refl

run_write-IsEngineState_example :
    IsEngineState client ordered (run_write client empty (creates_dentry 1 (codes "a") 300 regular))
unfolding memory-IsOrderedStore rocksdb_client-IsOrderedClient
run_write-IsEngineState_example =
    run_write-IsEngineState client ordered empty (creates_dentry 1 (codes "a") 300 regular)
      (omega arith, omega arith, tt) ([], (refl, tt))

abbrev stored : List Entry
stored =
    child 1 (record { name = codes "a"; inode_id = 300; type = regular })
    ∷ child 256 (record { name = codes "b"; inode_id = 301; type = directory })
    ∷ piece 1 slice
    ∷ []

abbrev filled : Memory
filled = (add_slice client (create_dentry client with_a 256 (codes "b") 301 directory).0 1 slice).0

filled-Holds : Holds filled.content stored
unfolding add_slice create_dentry write_memory apply_batch apply_op insert cmp be_bytes
    encode_slice_value encode_dentry_value type_code
filled-Holds = (
  refl,
  (
    (omega arith, omega arith, tt),
    ((omega arith, omega arith, tt), ((omega arith, omega arith), tt)),
  ),
)

readdir-children_example :
    readdir client filled 1
    ≡ done (some (record { name = codes "a"; inode_id = 300; type = regular } ∷ []))
unfolding memory-IsOrderedStore rocksdb_client-IsOrderedClient
readdir-children_example =
    readdir-children client ordered filled stored filled-Holds 1 (omega arith)

get_layout-pieces_example :
    get_layout client filled 1
    ≡ done (some (record { inode_id = 1; chunk_size = 4 * 1024 * 1024; slices = slice ∷ [] }))
unfolding memory-IsOrderedStore rocksdb_client-IsOrderedClient
get_layout-pieces_example =
    get_layout-pieces client ordered filled stored filled-Holds 1 (omega arith)

readdir-last_example : readdir client filled (2 ^ 64 - 1) ≡ done (some [])
readdir-last_example = readdir-last client ordered filled
