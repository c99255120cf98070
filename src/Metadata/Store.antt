-- ===== src/Metadata/Store.antt =====
-- The class `MetadataStore` of include/nebulastore/metadata/metadata_service.h, with the deletions
-- and the scan that `MetaPartition` calls beside it, and `MetaPartition` over it.
use nimbus_store.Base.{
  ℕ, ◌^◌, ◌<◌, List, Bool, true, Option, none, some, not, ◌&&◌, ltb, leb, ◌≡◌, ◌⊎◌, ◌≢◌,
  if◌then◌else◌,
}
use nimbus_store.Bytes.{Bytes, codes}
use nimbus_store.Metadata.Types.{
  Status, Result, done, failed, IsNamed, FileType, FileMode, InodeAttr, Dentry, is_ok, io,
  invalid_argument,
}

-- `CreateInode` of a transaction
abbrev pub fresh_attr : ℕ → ℕ → FileMode → ℕ → ℕ → InodeAttr
fresh_attr now inode mode uid gid = record {
  inode_id = inode;
  mode = mode;
  uid = uid;
  gid = gid;
  size = 0;
  mtime = now;
  ctime = now;
  nlink = 1;
}

-- the mode, the user and the group, of 32 bits each
abbrev pub IsCreatable : FileMode → ℕ → ℕ → Type 0
IsCreatable mode uid gid = (mode.mode < 2 ^ 32) × (uid < 2 ^ 32) × (gid < 2 ^ 32)

pub record MetadataStore : Type 1 where
  pub State : Type 0
  pub Transaction : Type 0
  pub begin_transaction : State → Transaction
  pub txn_create_dentry : Transaction → ℕ → Bytes → ℕ → FileType → Transaction × Status
  -- the first argument is the clock
  pub txn_create_inode : ℕ → Transaction → ℕ → FileMode → ℕ → ℕ → Transaction × Status
  pub commit : State → Transaction → State × Status
  pub store_lookup_dentry : State → ℕ → Bytes → Result Dentry
  pub store_lookup_inode : State → ℕ → Result InodeAttr
  pub store_delete_dentry : State → ℕ → Bytes → State × Status
  pub store_delete_inode : State → ℕ → State × Status
  pub store_list_dentries : State → ℕ → Result (List Dentry)

module _ (m : MetadataStore) where
  open m use {State}

  abbrev pub dentry_txn : State → ℕ → Bytes → ℕ → FileType → m.Transaction × Status
  dentry_txn s parent name inode type =
      m.txn_create_dentry (m.begin_transaction s) parent name inode type

  abbrev pub inode_txn : ℕ → State → ℕ → FileMode → ℕ → ℕ → m.Transaction × Status
  inode_txn now s inode mode uid gid =
      m.txn_create_inode now (m.begin_transaction s) inode mode uid gid

-- What the service relies on of a store: a transaction of one operation that goes well writes the
-- record of that key, which is then found, and no other record. Directories are words of 64 bits,
-- and inodes stay below 2^31, where `RocksDBStore` reads them back (RocksdbStore/Laws); `shown` is
-- the time that a lookup gives for the one that was written.
module _ (m : MetadataStore) (shown : ℕ → ℕ) where
  open m use {State}

  pub record IsMetadataStore : Type 0 where
    pub dentry_found :
        (s : State) (parent : ℕ) (name : Bytes) (inode : ℕ) (type : FileType)
        → parent < 2 ^ 64
        → inode < 2 ^ 31
        → IsNamed type
        → is_ok (dentry_txn m s parent name inode type).1 ≡ true
        → is_ok (m.commit s (dentry_txn m s parent name inode type).0).1 ≡ true
        → (d : Dentry) × (m.store_lookup_dentry
              (m.commit s (dentry_txn m s parent name inode type).0).0
              parent
              name
            ≡ done d)
          × (d.inode_id ≡ inode)
          × (d.type ≡ type)
    pub dentry_others :
        (s : State) (parent : ℕ) (name : Bytes) (inode : ℕ) (type : FileType) (q : ℕ) (n : Bytes)
        → parent < 2 ^ 64
        → q < 2 ^ 64
        → ((q ≢ parent) ⊎ (n ≢ name))
        → m.store_lookup_dentry (m.commit s (dentry_txn m s parent name inode type).0).0 q n
          ≡ m.store_lookup_dentry s q n
    pub dentry_inodes :
        (s : State) (parent : ℕ) (name : Bytes) (inode : ℕ) (type : FileType) (i : ℕ)
        → m.store_lookup_inode (m.commit s (dentry_txn m s parent name inode type).0).0 i
          ≡ m.store_lookup_inode s i
    pub inode_found :
        (now : ℕ) (s : State) (inode : ℕ) (mode : FileMode) (uid gid : ℕ)
        → inode < 2 ^ 31
        → IsCreatable mode uid gid
        → is_ok (inode_txn m now s inode mode uid gid).1 ≡ true
        → is_ok (m.commit s (inode_txn m now s inode mode uid gid).0).1 ≡ true
        → m.store_lookup_inode (m.commit s (inode_txn m now s inode mode uid gid).0).0 inode
          ≡ done (fresh_attr (shown now) inode mode uid gid)
    pub inode_dentries :
        (now : ℕ) (s : State) (inode : ℕ) (mode : FileMode) (uid gid q : ℕ) (n : Bytes)
        → m.store_lookup_dentry (m.commit s (inode_txn m now s inode mode uid gid).0).0 q n
          ≡ m.store_lookup_dentry s q n
    pub dentry_word :
        (s : State) (q : ℕ) (n : Bytes) (d : Dentry)
        → m.store_lookup_dentry s q n ≡ done d
        → d.inode_id < 2 ^ 64

pub record PartitionConfig : Type 0 where
  pub start_inode : ℕ
  pub end_inode : ℕ
  pub data_dir : Bytes

module _ (m : MetadataStore) where
  open m use {State}

  -- `store` is `none` before `Init`.
  pub record MetaPartition : Type 0 where
    pub config : PartitionConfig
    pub store : Option State

  abbrev not_initialized : Status
  not_initialized = io (codes "Store not initialized")

  -- a call that reads, and a call that writes, where there is a store
  abbrev read_store : {A : Type 0} → Option State → (State → Result A) → Result A
  read_store none f = failed not_initialized
  read_store (some s) f = f s

  abbrev pub write_store :
      MetaPartition → Option State → (State → State × Status) → Status × MetaPartition
  write_store p none f = (not_initialized, p)
  write_store p (some s) f = let (s', status) = f s in (status, record p { store = some s' })

  -- `commit` where the transaction took the operation
  abbrev committed : State → m.Transaction × Status → State × Status
  committed s (txn, status) = if is_ok status then m.commit s txn else (s, status)

  unfoldable pub lookup : MetaPartition → ℕ → Result InodeAttr
  lookup p inode = read_store p.store (λ s. m.store_lookup_inode s inode)

  unfoldable pub lookup_dentry : MetaPartition → ℕ → Bytes → Result Dentry
  lookup_dentry p parent name = read_store p.store (λ s. m.store_lookup_dentry s parent name)

  unfoldable pub create_dentry : MetaPartition → ℕ → Bytes → ℕ → FileType → Status × MetaPartition
  create_dentry p parent name inode type =
      write_store p p.store
        (λ s. committed s (m.txn_create_dentry (m.begin_transaction s) parent name inode type))

  abbrev in_range : MetaPartition → ℕ → Bool
  in_range p inode = leb p.config.start_inode inode && ltb inode p.config.end_inode

  -- The store is looked for before the range.
  abbrev create_in_store :
      ℕ → MetaPartition → ℕ → FileMode → ℕ → ℕ → Option State → Status × MetaPartition
  create_in_store now p inode mode uid gid none = (not_initialized, p)
  create_in_store now p inode mode uid gid (some s) =
      if not (in_range p inode)
      then (invalid_argument (codes "Inode ID out of range"), p)
      else write_store p (some s)
          (λ s. committed s (m.txn_create_inode now (m.begin_transaction s) inode mode uid gid))

  unfoldable pub create_inode : ℕ → MetaPartition → ℕ → FileMode → ℕ → ℕ → Status × MetaPartition
  create_inode now p inode mode uid gid = create_in_store now p inode mode uid gid p.store

  unfoldable pub delete_dentry : MetaPartition → ℕ → Bytes → Status × MetaPartition
  delete_dentry p parent name = write_store p p.store (λ s. m.store_delete_dentry s parent name)

  unfoldable pub delete_inode : MetaPartition → ℕ → Status × MetaPartition
  delete_inode p inode = write_store p p.store (λ s. m.store_delete_inode s inode)

  unfoldable pub list_dentries : MetaPartition → ℕ → Result (List Dentry)
  list_dentries p parent = read_store p.store (λ s. m.store_list_dentries s parent)
