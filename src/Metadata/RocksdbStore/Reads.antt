-- ===== src/Metadata/RocksdbStore/Reads.antt =====
-- What src/metadata/rocksdb_store.cpp reads after a transaction, over a RocksDB database whose reads
-- do not fail.
use nimbus_store.Base.{
  ℕ, ◌+◌, ◌-◌, ◌%◌, ◌^◌, ◌<◌, ◌≤◌, [], ◌∷◌, true, ◌&&◌, some, ◌==◌, ==_refl, Option-cases,
  Bool-cases, ◌++◌, inl, inr, ◌≡◌, refl, ap, sym, false, ◌∙◌, arith, if◌then◌else◌, All,
}
use mathlib.Core.Bool.{false≢true}
use nimbus_store.Bytes.{Bytes, bytes_eq}
use nimbus_store.Bytes.Words.{le_bytes}
use nimbus_store.OrderedMap.{find}
use nimbus_store.OrderedMap.Laws.{find-insert}
use nimbus_store.Rocksdb.{Rocksdb, IsOrderedStore, batch_put, read_of, apply_batch, apply_op}
use nimbus_store.Metadata.Types.{done, FileType, FileMode, Dentry, IsNamed, is_ok}
use nimbus_store.Metadata.Store.{fresh_attr, dentry_txn, inode_txn}
use nimbus_store.Metadata.RocksdbStore.Shifts.{read_char_word, read_char_word-sign}
use nimbus_store.Metadata.RocksdbStore.Values.{
  encode_dentry_key, encode_inode_key, encode_dentry_value, encode_inode_value,
}
use nimbus_store.Metadata.RocksdbStore.Keys.{
  bytes_eq-encode_dentry_key, bytes_eq-encode_inode_key, bytes_eq-tags,
}
use nimbus_store.Metadata.RocksdbStore.RoundTrip.{
  decode-encode_dentry_value, decode-encode_inode_value, chars_of, chars_of-zero, chars_of-one,
}
use nimbus_store.Metadata.RocksdbStore.Operations.{
  RocksdbTransaction, commit, create_dentry, create_inode, begin_transaction, lookup_dentry,
  lookup_inode, rocksdb_store,
}

module _ (r : Rocksdb) (o : IsOrderedStore r) (past : ℕ → ℕ → ℕ)
    (zero_shift : (i : ℕ) → past i 0 ≡ 0) (unset : Dentry) (to_string : ℕ → Bytes) where
  -- what is read after the commit of a transaction of one write
  get-commit :
      (s : r.Db) (j k v : Bytes) (t : RocksdbTransaction)
      → t.batch ≡ batch_put k v ∷ []
      → is_ok (commit r past unset to_string s t).2 ≡ true
      → r.get (commit r past unset to_string s t).0 j
        ≡ (if bytes_eq j k then read_of (some v) else r.get s j)
  unfolding commit
  get-commit s j k v t batch = elim (Option-cases (r.write s t.batch).1) [
    | inr (e, fails) ↦ rw fails (λ ok. absurd (false≢true ok))
    | inl fine ↦ rw fine (λ ok.
        o.get_entries (r.write s t.batch).0 j
        ∙ ap (λ m. read_of (find j m))
            (o.write_done s t.batch fine
              ∙ rw batch (unfold apply_batch in (unfold apply_op in refl)))
        ∙ ap read_of (find-insert j k v (o.entries s))
        ∙ ground (arith, o.get_entries s j))
  ]

  get-commit_failed :
      (s : r.Db) (j : Bytes) (t : RocksdbTransaction)
      → is_ok (commit r past unset to_string s t).2 ≡ false
      → r.get (commit r past unset to_string s t).0 j ≡ r.get s j
  unfolding commit
  get-commit_failed s j t = elim (Option-cases (r.write s t.batch).1) [
    | inl fine ↦ rw fine (λ h. absurd (false≢true (sym h)))
    | inr (e, fails) ↦ rw fails (λ h.
        o.get_entries (r.write s t.batch).0 j
        ∙ ap (λ m. read_of (find j m)) (o.write_failed s t.batch e fails)
        ∙ sym (o.get_entries s j))
  ]

  -- a commit that reports an error, or that writes another key, leaves what is read
  pub get-commit_other :
      (s : r.Db) (j k v : Bytes) (t : RocksdbTransaction)
      → t.batch ≡ batch_put k v ∷ []
      → bytes_eq j k ≡ false
      → r.get (commit r past unset to_string s t).0 j ≡ r.get s j
  get-commit_other s j k v t batch apart =
      elim (Bool-cases (is_ok (commit r past unset to_string s t).2)) [
        | inl ok ↦ get-commit s j k v t batch ok ∙ rw apart refl
        | inr fails ↦ get-commit_failed s j t fails
      ]

  -- Over a RocksDB database whose reads do not fail, let a transaction create a directory entry of a
  -- named type, with a parent below 2^64 and an inode below 2^31, and let its commit report OK. Then
  -- a lookup finds that entry, without its name, under the parent and the name, what it found before
  -- under every other parent and name, and every inode as it was; an undefined shift of 0 gives 0.
  pub lookup_dentry-create_dentry :
      (s : r.Db) (parent inode q j : ℕ) (name n : Bytes) (type : FileType)
      → let m = rocksdb_store r past unset to_string in
        let s' = m.commit s (dentry_txn m s parent name inode type).0 in
        parent < 2 ^ 64
        → inode < 2 ^ 31
        → q < 2 ^ 64
        → IsNamed type
        → is_ok s'.1 ≡ true
        → (m.store_lookup_dentry s'.0 q n ≡ (
            if q == parent && bytes_eq n name
            then done (record { name = []; inode_id = inode; type = type })
            else m.store_lookup_dentry s q n))
          × (m.store_lookup_inode s'.0 j ≡ m.store_lookup_inode s j)
  unfolding create_dentry begin_transaction lookup_dentry lookup_inode read_of
  lookup_dentry-create_dentry s parent inode q j name n type h i w named ok =
      let d : Dentry = record { name = name; inode_id = inode; type = type } in
      let t = (create_dentry begin_transaction parent name inode type).0 in
      let v = encode_dentry_value d in
      (
        rw
            (
              get-commit s (encode_dentry_key q n) (encode_dentry_key parent name) v t refl ok,
              bytes_eq-encode_dentry_key q parent n name w h,
            )
            (elim (Bool-cases (q == parent && bytes_eq n name)) [
              | inl e ↦ rw (e, decode-encode_dentry_value past zero_shift unset d i named) refl
              | inr e ↦ rw e refl
            ]),
        rw
            (
              get-commit s (encode_inode_key j) (encode_dentry_key parent name) v t refl ok,
              bytes_eq-tags 73 68 (le_bytes 8 j) ((le_bytes 8 parent ++ 47 ∷ []) ++ name)
                  (λ e. absurd (omega (arith, e))),
            )
            refl,
      )

  pub create_inode-read :
      (now shown : ℕ) (s : r.Db) (inode j q uid gid : ℕ) (n : Bytes) (mode : FileMode)
      → let m = rocksdb_store r past unset to_string in
        let s' = m.commit s (inode_txn m now s inode mode uid gid).0 in
        chars_of now ≡ shown
        → inode < 2 ^ 31
        → j < 2 ^ 64
        → mode.mode < 2 ^ 32
        → uid < 2 ^ 32
        → gid < 2 ^ 32
        → is_ok s'.1 ≡ true
        → (m.store_lookup_inode s'.0 j ≡ (
            if j == inode
            then done (record (fresh_attr now inode mode uid gid) { mtime = shown; ctime = shown })
            else m.store_lookup_inode s j))
          × (m.store_lookup_dentry s'.0 q n ≡ m.store_lookup_dentry s q n)
  unfolding create_inode begin_transaction lookup_dentry lookup_inode read_of
  create_inode-read now shown s inode j q uid gid n mode read h w a b c ok =
      let attr = fresh_attr now inode mode uid gid in
      let t = (create_inode now begin_transaction inode mode uid gid).0 in
      let v = encode_inode_value attr in
      (
        rw
            (
              get-commit s (encode_inode_key j) (encode_inode_key inode) v t refl ok,
              bytes_eq-encode_inode_key j inode w (omega (arith, h)),
            )
            (elim (Bool-cases (j == inode)) [
              | inl e ↦
                  rw
                    (
                      e,
                      decode-encode_inode_value past zero_shift attr h a b c,
                      read,
                      chars_of-zero,
                      chars_of-one,
                    )
                    refl
              | inr e ↦ rw e refl
            ]),
        rw
            (
              get-commit s (encode_dentry_key q n) (encode_inode_key inode) v t refl ok,
              bytes_eq-tags 68 73 ((le_bytes 8 q ++ 47 ∷ []) ++ n) (le_bytes 8 inode)
                  (λ e. absurd (omega (arith, e))),
            )
            refl,
      )

  -- Over a RocksDB database whose reads do not fail, let a transaction create an inode below 2^31 at a time whose eight bytes
  -- are all below 128, and let its commit report OK. Then a lookup of an inode finds its attributes
  -- with that time, of every other inode what it found before, and every directory entry as it was;
  -- mode, user and group are words of 32 bits, and an undefined shift of 0 gives 0.
  pub lookup_inode-create_inode :
      (now : ℕ) (s : r.Db) (inode j q uid gid : ℕ) (n : Bytes) (mode : FileMode)
      → let m = rocksdb_store r past unset to_string in
        let s' = m.commit s (inode_txn m now s inode mode uid gid).0 in
        now < 2 ^ 64
        → All (λ b. b < 128) (le_bytes 8 now)
        → inode < 2 ^ 31
        → j < 2 ^ 64
        → mode.mode < 2 ^ 32
        → uid < 2 ^ 32
        → gid < 2 ^ 32
        → is_ok s'.1 ≡ true
        → (m.store_lookup_inode s'.0 j ≡ (
            if j == inode
            then done (fresh_attr now inode mode uid gid)
            else m.store_lookup_inode s j))
          × (m.store_lookup_dentry s'.0 q n ≡ m.store_lookup_dentry s q n)
  lookup_inode-create_inode now s inode j q uid gid n mode word low h w a b c ok =
      create_inode-read now now s inode j q uid gid n mode (read_char_word now word low) h w a b c
        ok

  -- Over a RocksDB database whose reads do not fail, let a transaction create an inode below 2^31, with mode, user and group of 32 bits, at a time whose lowest byte is 128 or more, and let its commit report OK; an undefined shift of 0 gives 0. Then the lookup of the new
  -- inode finds times of which all bits from the eighth on are set.
  pub lookup_inode-create_inode_sign :
      (now : ℕ) (s : r.Db) (inode uid gid : ℕ) (mode : FileMode)
      → let m = rocksdb_store r past unset to_string in
        let s' = m.commit s (inode_txn m now s inode mode uid gid).0 in
        let shown = now % 256 + (2 ^ 64 - 256) in
        128 ≤ now % 256
        → inode < 2 ^ 31
        → mode.mode < 2 ^ 32
        → uid < 2 ^ 32
        → gid < 2 ^ 32
        → is_ok s'.1 ≡ true
        → m.store_lookup_inode s'.0 inode
          ≡ done (record (fresh_attr now inode mode uid gid) { mtime = shown; ctime = shown })
  lookup_inode-create_inode_sign now s inode uid gid mode sign h a b c ok =
      (create_inode-read now (now % 256 + (2 ^ 64 - 256)) s inode inode 0 uid gid [] mode
        (read_char_word-sign now sign) h (omega (arith, h)) a b c ok).0
      ∙ rw (==_refl inode) refl
