-- ===== src/Metadata/RocksdbStore/Operations.antt =====
-- The operations of `RocksDBStore` and `RocksDBTransaction` in src/metadata/rocksdb_store.cpp, over
-- RocksDB. `past` is what an undefined shift gives, `unset` a `Dentry` without initial values, and
-- `to_string` is `std::to_string`.
use nimbus_store.Base.{
  ℕ, ◌*◌, List, [], ◌∷◌, ◌++◌, Bool, true, false, Option, none, some, if◌then◌else◌, drop, length,
}
use nimbus_store.Bytes.{Bytes, codes, starts_with}
use nimbus_store.OrderedMap.{Map}
use nimbus_store.Rocksdb
use nimbus_store.Rocksdb.{Rocksdb, ReadResult, found, read_error, BatchOp, batch_put}
use nimbus_store.Metadata.Types.{
  Status, Result, done, failed, fine, io, not_found, FileType, FileMode, InodeAttr, Dentry,
}
use nimbus_store.Metadata.Store.{fresh_attr, MetadataStore}
use nimbus_store.Metadata.Service.{FileLayout}
use nimbus_store.Metadata.RocksdbStore.Values.{
  dentry_prefix, encode_dentry_key, encode_inode_key, encode_layout_key, encode_dentry_value,
  decode_dentry_value, encode_inode_value, decode_inode_value, decode_layout_value,
}

-- `RocksDBTransaction`, without the pointers to the database and the store
pub record RocksdbTransaction : Type 0 where
  pub batch : List BatchOp
  pub committed : Bool
  pub txn_dentry_key : Bytes
  pub txn_dentry_value : Bytes
  pub txn_inode_key : Bytes
  pub txn_inode_value : Bytes

unfoldable pub begin_transaction : RocksdbTransaction
begin_transaction = record {
  batch = [];
  committed = false;
  txn_dentry_key = [];
  txn_dentry_value = [];
  txn_inode_key = [];
  txn_inode_value = [];
}

unfoldable pub create_dentry :
    RocksdbTransaction → ℕ → Bytes → ℕ → FileType → RocksdbTransaction × Status
create_dentry t parent name inode type =
    let k = encode_dentry_key parent name in
    let v = encode_dentry_value (record { name = name; inode_id = inode; type = type }) in
    (
      record t { batch = t.batch ++ batch_put k v ∷ []; txn_dentry_key = k; txn_dentry_value = v },
      fine,
    )

-- `now` is what both readings of the clock give.
unfoldable pub create_inode :
    ℕ → RocksdbTransaction → ℕ → FileMode → ℕ → ℕ → RocksdbTransaction × Status
create_inode now t inode mode uid gid =
    let k = encode_inode_key inode in
    let v = encode_inode_value (fresh_attr now inode mode uid gid) in
    (
      record t { batch = t.batch ++ batch_put k v ∷ []; txn_inode_key = k; txn_inode_value = v },
      fine,
    )

unfoldable pub rollback : RocksdbTransaction → RocksdbTransaction × Status
rollback t = (record t { batch = []; committed = true }, fine)

abbrev default_layout : ℕ → FileLayout
default_layout inode = record { inode_id = inode; chunk_size = 4 * 1024 * 1024; slices = [] }

-- the answer of a deletion
abbrev pub deleted : Bytes → Option Bytes → Status
deleted text none = fine
deleted text (some e) = io (text ++ e)

module _ (r : Rocksdb) (past : ℕ → ℕ → ℕ) (unset : Dentry) (to_string : ℕ → Bytes) where
  abbrev pub dentry_of : Bytes → ReadResult → Result Dentry
  dentry_of name Rocksdb.not_found = failed (not_found (codes "Dentry not found: " ++ name))
  dentry_of name (read_error e) = failed (io (codes "Failed to lookup dentry: " ++ e))
  dentry_of name (found v) = done (decode_dentry_value past unset v)

  unfoldable pub lookup_dentry : r.Db → ℕ → Bytes → Result Dentry
  unfolding decode_dentry_value encode_dentry_key
  lookup_dentry db parent name = dentry_of name (r.get db (encode_dentry_key parent name))

  abbrev inode_of : ℕ → ReadResult → Result InodeAttr
  inode_of inode Rocksdb.not_found =
      failed (not_found (codes "Inode not found: " ++ to_string inode))
  inode_of inode (read_error e) = failed (io (codes "Failed to lookup inode: " ++ e))
  inode_of inode (found v) = done (decode_inode_value past v)

  unfoldable pub lookup_inode : r.Db → ℕ → Result InodeAttr
  unfolding decode_inode_value encode_inode_key
  lookup_inode db inode = inode_of inode (r.get db (encode_inode_key inode))

  abbrev layout_of : ℕ → ReadResult → Result FileLayout
  layout_of inode Rocksdb.not_found = done (default_layout inode)
  layout_of inode (read_error e) = failed (io (codes "Failed to lookup layout: " ++ e))
  layout_of inode (found v) = done (decode_layout_value v)

  unfoldable pub lookup_layout : r.Db → ℕ → Result FileLayout
  unfolding decode_layout_value encode_layout_key
  lookup_layout db inode = layout_of inode (r.get db (encode_layout_key inode))

  abbrev committed_with :
      RocksdbTransaction → r.Db × Option Bytes → r.Db × RocksdbTransaction × Status
  committed_with t (db, none) = (db, record t { committed = true }, fine)
  committed_with t (db, some e) = (db, t, io (codes "Transaction commit failed: " ++ e))

  unfoldable pub commit : r.Db → RocksdbTransaction → r.Db × RocksdbTransaction × Status
  commit db t = committed_with t (r.write db t.batch)

  unfoldable pub delete_dentry : r.Db → ℕ → Bytes → r.Db × Status
  unfolding encode_dentry_key
  delete_dentry db parent name =
      let (db', error) = r.delete db (encode_dentry_key parent name) in
      (db', deleted (codes "Failed to delete dentry: ") error)

  unfoldable pub delete_inode : r.Db → ℕ → r.Db × Status
  unfolding encode_inode_key
  delete_inode db inode =
      let (db', error) = r.delete db (encode_inode_key inode) in
      (db', deleted (codes "Failed to delete inode: ") error)

  unfoldable pub delete_layout : r.Db → ℕ → r.Db × Status
  unfolding encode_layout_key
  delete_layout db inode =
      let (db', error) = r.delete db (encode_layout_key inode) in
      (db', deleted (codes "Failed to delete layout: ") error)

  -- the loop of `ListDentries` over the iterator
  unfoldable pub read_dentries : Bytes → Map → List Dentry
  unfolding decode_dentry_value
  read_dentries prefix [] = []
  read_dentries prefix ((k, v) ∷ entries) =
      let rest = read_dentries prefix entries in
      if starts_with prefix k
      then record (decode_dentry_value past unset v) { name = drop (length prefix) k } ∷ rest
      else []

  abbrev listed : List Dentry → Option Bytes → Result (List Dentry)
  listed entries none = done entries
  listed entries (some e) = failed (io (codes "Failed to list dentries: " ++ e))

  unfoldable pub list_dentries : r.Db → ℕ → Result (List Dentry)
  unfolding read_dentries
  list_dentries db parent =
      let prefix = dentry_prefix parent in
      let (entries, error) = r.seek db prefix in listed (read_dentries prefix entries) error

  -- the store that a partition has
  abbrev pub rocksdb_store : MetadataStore
  rocksdb_store = record {
    State = r.Db;
    Transaction = RocksdbTransaction;
    begin_transaction = λ db. begin_transaction;
    txn_create_dentry = create_dentry;
    txn_create_inode = create_inode;
    commit = λ db t. (let (db', t', status) = commit db t in (db', status));
    store_lookup_dentry = lookup_dentry;
    store_lookup_inode = lookup_inode;
    store_delete_dentry = delete_dentry;
    store_delete_inode = delete_inode;
    store_list_dentries = list_dentries;
  }
