-- ===== src/Metadata/RocksdbStore/Laws.antt =====
-- `RocksDBStore` of src/metadata/rocksdb_store.cpp as a store that `MetadataService` relies on, over a
-- RocksDB database whose reads do not fail: the time that is shown is the one that its decoding reads.
use nimbus_store.Base.{
  ℕ, ◌^◌, ◌<◌, ◌==◌, ◌&&◌, [], ◌∷◌, ◌++◌, take, drop, length, ltb, Bool-cases, inl, inr, false, ◌≡◌,
  ◌≢◌, ◌⊎◌, refl, ap, ◌∙◌, arith, ==_refl, ==→eq,
}
use nimbus_store.Bytes.{Bytes, bytes_eq}
use nimbus_store.Bytes.Order.{bytes_eq→eq, bytes_eq_refl}
use nimbus_store.Bytes.Words.{le_bytes}
use nimbus_store.Rocksdb.{Rocksdb, ReadResult, found, not_found, read_error, IsOrderedStore}
use nimbus_store.Metadata.Types.{Dentry, done, failed≢done, done-injective}
use nimbus_store.Metadata.Store.{IsMetadataStore}
use nimbus_store.Metadata.RocksdbStore.Words.{int_part}
use nimbus_store.Metadata.RocksdbStore.Shifts.{read_parts-lt}
use nimbus_store.Metadata.RocksdbStore.Values.{
  decode_dentry_value, encode_dentry_key, encode_dentry_value, encode_inode_key, encode_inode_value,
}
use nimbus_store.Metadata.RocksdbStore.Keys.{bytes_eq-encode_dentry_key, bytes_eq-tags}
use nimbus_store.Metadata.RocksdbStore.RoundTrip.{chars_of}
use nimbus_store.Metadata.RocksdbStore.Operations.{
  begin_transaction, create_dentry, create_inode, lookup_dentry, lookup_inode, dentry_of,
  rocksdb_store,
}
use nimbus_store.Metadata.RocksdbStore.Reads.{
  get-commit_other, lookup_dentry-create_dentry, create_inode-read,
}

other_entry :
    (parent q : ℕ) (name n : Bytes)
    → ((q ≢ parent) ⊎ (n ≢ name))
    → (q == parent && bytes_eq n name) ≡ false
other_entry parent q name n h = ground (arith, h, bytes_eq→eq n name, ==→eq q parent)

module _ (r : Rocksdb) (o : IsOrderedStore r) (past : ℕ → ℕ → ℕ)
    (zero_shift : (i : ℕ) → past i 0 ≡ 0) (unset : Dentry) (unset_word : unset.inode_id < 2 ^ 64)
    (to_string : ℕ → Bytes) where
  decode_dentry_value-word :
      (value : Bytes) → (decode_dentry_value past unset value).inode_id < 2 ^ 64
  unfolding decode_dentry_value
  decode_dentry_value-word value = elim (Bool-cases (ltb (length value) 12)) [
    | inl short ↦ rw short unset_word
    | inr long ↦
        rw long (read_parts-lt (int_part past) 64 0 0 (take 8 (drop 0 value)) (omega arith))
  ]

  dentry_of-word :
      (n : Bytes) (read : ReadResult) (d : Dentry)
      → dentry_of r past unset to_string n read ≡ done d
      → d.inode_id < 2 ^ 64
  dentry_of-word n not_found d h = absurd (failed≢done h)
  dentry_of-word n (read_error e) d h = absurd (failed≢done h)
  dentry_of-word n (found value) d h =
      let same = ap (λ (x : Dentry). x.inode_id) (done-injective h) in
      omega (arith, decode_dentry_value-word value, same)

  pub rocksdb_store-IsMetadataStore :
      IsMetadataStore (rocksdb_store r past unset to_string) chars_of
  unfolding begin_transaction create_dentry create_inode lookup_dentry lookup_inode
  rocksdb_store-IsMetadataStore = record {
    dentry_found = λ s parent name inode type w v named took ok. (
      record { name = []; inode_id = inode; type = type },
      (lookup_dentry-create_dentry r o past zero_shift unset to_string s parent inode parent 0 name
            name type w v w named ok).0
          ∙ rw (==_refl parent, bytes_eq_refl name) refl,
      refl,
      refl,
    );
    dentry_others = λ s parent name inode type q n w v h. ap (dentry_of r past unset to_string n) (
        get-commit_other r o past zero_shift unset to_string s (encode_dentry_key q n)
          (encode_dentry_key parent name)
          (encode_dentry_value (record { name = name; inode_id = inode; type = type }))
          (create_dentry begin_transaction parent name inode type).0 refl
          (bytes_eq-encode_dentry_key q parent n name v w ∙ other_entry parent q name n h));
    dentry_inodes = λ s parent name inode type i.
        rw
          (get-commit_other r o past zero_shift unset to_string s (encode_inode_key i)
            (encode_dentry_key parent name)
            (encode_dentry_value (record { name = name; inode_id = inode; type = type }))
            (create_dentry begin_transaction parent name inode type).0 refl
            (bytes_eq-tags 73 68 (le_bytes 8 i) ((le_bytes 8 parent ++ 47 ∷ []) ++ name)
              (λ e. absurd (omega (arith, e)))))
          refl;
    inode_found = λ now s inode mode uid gid v fits took ok.
        (create_inode-read r o past zero_shift unset to_string now (chars_of now) s inode inode 0
          uid gid [] mode refl v (omega (arith, v)) fits.0 fits.1 fits.2 ok).0
        ∙ rw (==_refl inode) refl;
    inode_dentries = λ now s inode mode uid gid q n. ap (dentry_of r past unset to_string n) (
        get-commit_other r o past zero_shift unset to_string s (encode_dentry_key q n)
          (encode_inode_key inode)
          (encode_inode_value (record {
            inode_id = inode;
            mode = mode;
            uid = uid;
            gid = gid;
            size = 0;
            mtime = now;
            ctime = now;
            nlink = 1;
          }))
          (create_inode now begin_transaction inode mode uid gid).0 refl
          (bytes_eq-tags 68 73 ((le_bytes 8 q ++ 47 ∷ []) ++ n) (le_bytes 8 inode)
            (λ e. absurd (omega (arith, e)))));
    dentry_word = λ s q n d. dentry_of-word n (r.get s (encode_dentry_key q n)) d;
  }
