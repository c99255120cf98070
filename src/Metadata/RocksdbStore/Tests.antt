-- ===== src/Metadata/RocksdbStore/Tests.antt =====
-- The store at a database in memory.
use nimbus_store.Base.{ℕ, List, map, [], ◌∷◌, true, ◌≡◌, refl, arith}
use nimbus_store.Bytes.{codes, cmp}
use nimbus_store.Bytes.Words.{le_bytes}
use nimbus_store.OrderedMap.{Sorted}
use nimbus_store.Metadata.RocksdbStore.InMemory.{past, zero_shift, unset, digit, empty_db}
use nimbus_store.Rocksdb.InMemory.{Memory, memory, memory-IsOrderedStore, write_memory}
use nimbus_store.Metadata.Types.{done, is_ok, FileMode, regular, directory}
use nimbus_store.Metadata.Store.{fresh_attr, dentry_txn, inode_txn}
use nimbus_store.Metadata.RocksdbStore.Values.{encode_dentry_key, encode_inode_key}
use nimbus_store.Metadata.RocksdbStore.Operations.{
  rocksdb_store, begin_transaction, create_dentry, create_inode, commit, list_dentries,
}
use nimbus_store.Metadata.RocksdbStore.Reads.{
  lookup_dentry-create_dentry, lookup_inode-create_inode, lookup_inode-create_inode_sign,
}
use nimbus_store.Metadata.RocksdbStore.Listing.{
  Entry, entry_bytes, child, attributes, list_dentries-children,
}

abbrev plain : FileMode
plain = record { mode = 420 }

dentry_run :
    is_ok
      ((rocksdb_store memory past unset digit).commit empty_db
        (dentry_txn (rocksdb_store memory past unset digit) empty_db 1 (codes "f") 2 regular).0).1
    ≡ true
unfolding begin_transaction create_dentry commit write_memory
dentry_run = refl

inode_run :
    (now : ℕ)
    → is_ok
        ((rocksdb_store memory past unset digit).commit empty_db
          (inode_txn (rocksdb_store memory past unset digit) now empty_db 2 plain 5 6).0).1
      ≡ true
unfolding begin_transaction create_inode commit write_memory
inode_run now = refl

lookup_dentry-create_dentry_example :
    let m = rocksdb_store memory past unset digit in
    let s' = m.commit empty_db (dentry_txn m empty_db 1 (codes "f") 2 regular).0 in
    (m.store_lookup_dentry s'.0 1 (codes "f")
      ≡ done (record { name = []; inode_id = 2; type = regular }))
    × (m.store_lookup_inode s'.0 2 ≡ m.store_lookup_inode empty_db 2)
unfolding cmp
lookup_dentry-create_dentry_example =
    lookup_dentry-create_dentry memory memory-IsOrderedStore past zero_shift unset digit empty_db 1
      2 1 2 (codes "f") (codes "f") regular (omega arith) (omega arith) (omega arith) tt dentry_run

-- a time of which every byte is below 128
lookup_inode-create_inode_example :
    let m = rocksdb_store memory past unset digit in
    let s' = m.commit empty_db (inode_txn m 100 empty_db 2 plain 5 6).0 in
    (m.store_lookup_inode s'.0 2 ≡ done (fresh_attr 100 2 plain 5 6))
    × (m.store_lookup_dentry s'.0 1 (codes "f") ≡ m.store_lookup_dentry empty_db 1 (codes "f"))
unfolding le_bytes
lookup_inode-create_inode_example =
    lookup_inode-create_inode memory memory-IsOrderedStore past zero_shift unset digit 100 empty_db
      2 2 1 5 6 (codes "f") plain (omega arith)
      (
        omega arith,
        (
          omega arith,
          (
            omega arith,
            (omega arith, (omega arith, (omega arith, (omega arith, (omega arith, tt))))),
          ),
        ),
      )
      (omega arith) (omega arith) (omega arith) (omega arith) (omega arith) (inode_run 100)

-- a time of 2023
lookup_inode-create_inode_sign_example :
    let m = rocksdb_store memory past unset digit in
    let s' = m.commit empty_db (inode_txn m 1700000200 empty_db 2 plain 5 6).0 in
    m.store_lookup_inode s'.0 2
    ≡ done (record (fresh_attr 0 2 plain 5 6) {
      mtime = 18446744073709551560;
      ctime = 18446744073709551560;
    })
lookup_inode-create_inode_sign_example =
    lookup_inode-create_inode_sign memory memory-IsOrderedStore past zero_shift unset digit
      1700000200 empty_db 2 5 6 plain (omega arith) (omega arith) (omega arith) (omega arith)
      (omega arith) (inode_run 1700000200)

abbrev two_dentries : List Entry
two_dentries =
    child 1 (record { name = codes "a"; inode_id = 2; type = regular })
    ∷ child 1 (record { name = codes "b"; inode_id = 3; type = directory })
    ∷ attributes 2 (fresh_attr 100 2 plain 5 6)
    ∷ []

two_dentries-Sorted : Sorted (map entry_bytes two_dentries)
unfolding cmp encode_dentry_key encode_inode_key le_bytes
two_dentries-Sorted = ((refl, (refl, tt)), ((refl, tt), (tt, tt)))

abbrev filled : Memory
filled = record { content = map entry_bytes two_dentries; order = two_dentries-Sorted; room = 9 }

list_dentries-children_example :
    list_dentries memory past unset digit filled 1
    ≡ done (
        record { name = codes "a"; inode_id = 2; type = regular }
        ∷ record { name = codes "b"; inode_id = 3; type = directory }
        ∷ [])
unfolding memory-IsOrderedStore
list_dentries-children_example =
    list_dentries-children memory past zero_shift unset digit memory-IsOrderedStore filled 1
      two_dentries refl (omega arith)
      ((omega arith, omega arith, tt), ((omega arith, omega arith, tt), (tt, tt)))
