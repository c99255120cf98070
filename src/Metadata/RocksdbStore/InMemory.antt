-- ===== src/Metadata/RocksdbStore/InMemory.antt =====
-- The store over a database in memory, with shifts of `int` as an x86 processor does them: the
-- number of places modulo 32.
use nimbus_store.Base.{ℕ, ◌+◌, ◌-◌, ◌*◌, ◌%◌, ◌^◌, [], ◌∷◌, ◌≡◌, arith}
use nimbus_store.Bytes.{Bytes}
use nimbus_store.Rocksdb.InMemory.{Memory, memory, memory-IsOrderedStore}
use nimbus_store.Metadata.Types.{Dentry, regular}
use nimbus_store.Metadata.Store.{MetadataStore, IsMetadataStore}
use nimbus_store.Metadata.RocksdbStore.RoundTrip.{chars_of}
use nimbus_store.Metadata.RocksdbStore.Operations.{rocksdb_store}
use nimbus_store.Metadata.RocksdbStore.Laws.{rocksdb_store-IsMetadataStore}

abbrev pub past : ℕ → ℕ → ℕ
past i b = b * 2 ^ ((i - 4) * 8) % 2 ^ 32

pub zero_shift : (i : ℕ) → past i 0 ≡ 0
zero_shift i = omega arith

abbrev pub unset : Dentry
unset = record { name = []; inode_id = 77; type = regular }

-- the name of a number, for numbers below ten
abbrev pub digit : ℕ → Bytes
digit n = (48 + n) ∷ []

abbrev pub empty_db : Memory
empty_db = record { content = []; order = tt; room = 9 }

abbrev pub in_memory : MetadataStore
in_memory = rocksdb_store memory past unset digit

pub in_memory-IsMetadataStore : IsMetadataStore in_memory chars_of
in_memory-IsMetadataStore =
    rocksdb_store-IsMetadataStore memory memory-IsOrderedStore past zero_shift unset (omega arith)
      digit
