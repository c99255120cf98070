-- ===== src/Metadata/Partitions.antt =====
-- `CreateDentry` and `CreateInode` of src/metadata/metadata_partition.cpp: what is found after them.
use nimbus_store.Base.{
  ℕ, ◌^◌, ◌<◌, true, ◌≡◌, ◌≢◌, ◌⊎◌, inl, inr, refl, sym, ◌∙◌, ◌&&◌, leb, ltb, Bool-cases,
  Option-cases,
}
use nimbus_store.Bytes.{Bytes}
use mathlib.Core.Bool.{false≢true}
use nimbus_store.Metadata.Types.{done, Dentry, FileType, FileMode, IsNamed, is_ok, failed≢done}
use nimbus_store.Metadata.Store.{
  MetadataStore, IsMetadataStore, IsCreatable, MetaPartition, dentry_txn, inode_txn, lookup,
  lookup_dentry, create_dentry, create_inode, fresh_attr,
}

module _ (m : MetadataStore) (shown : ℕ → ℕ) (law : IsMetadataStore m shown) where
  module _ (p : MetaPartition m) (parent : ℕ) (name : Bytes) (inode : ℕ) (type : FileType) where
    pub create_dentry-config : (create_dentry m p parent name inode type).1.config ≡ p.config
    unfolding create_dentry
    create_dentry-config = elim (Option-cases p.store) [
      | inl e ↦ rw e refl
      | inr (s, e) ↦ rw e refl
    ]

    pub lookup_dentry-create_dentry_ne :
        (q : ℕ) (n : Bytes)
        → parent < 2 ^ 64
        → q < 2 ^ 64
        → ((q ≢ parent) ⊎ (n ≢ name))
        → lookup_dentry m (create_dentry m p parent name inode type).1 q n ≡ lookup_dentry m p q n
    unfolding create_dentry lookup_dentry
    lookup_dentry-create_dentry_ne q n w v h = elim (Option-cases p.store) [
      | inl e ↦ rw e refl
      | inr (s, e) ↦ elim (Bool-cases (is_ok (dentry_txn m s parent name inode type).1)) [
        | inl k ↦ rw (e, k) (law.dentry_others s parent name inode type q n w v h)
        | inr k ↦ rw (e, k) refl
      ]
    ]

    pub lookup-create_dentry :
        (i : ℕ) → lookup m (create_dentry m p parent name inode type).1 i ≡ lookup m p i
    unfolding create_dentry lookup
    lookup-create_dentry i = elim (Option-cases p.store) [
      | inl e ↦ rw e refl
      | inr (s, e) ↦ elim (Bool-cases (is_ok (dentry_txn m s parent name inode type).1)) [
        | inl k ↦ rw (e, k) (law.dentry_inodes s parent name inode type i)
        | inr k ↦ rw (e, k) refl
      ]
    ]

    pub lookup_dentry-create_dentry :
        parent < 2 ^ 64
        → inode < 2 ^ 31
        → IsNamed type
        → is_ok (create_dentry m p parent name inode type).0 ≡ true
        → (d : Dentry) × (lookup_dentry m (create_dentry m p parent name inode type).1 parent name
            ≡ done d)
          × (d.inode_id ≡ inode)
          × (d.type ≡ type)
    unfolding create_dentry lookup_dentry
    lookup_dentry-create_dentry w v named = elim (Option-cases p.store) [
      | inl e ↦ rw e (λ h. absurd (false≢true h))
      | inr (s, e) ↦ elim (Bool-cases (is_ok (dentry_txn m s parent name inode type).1)) [
        | inl k ↦ rw (e, k) (λ h. law.dentry_found s parent name inode type w v named k h)
        | inr k ↦ rw (e, k) (λ h. absurd (false≢true (sym k ∙ h)))
      ]
    ]

  module _ (now : ℕ) (p : MetaPartition m) (inode : ℕ) (mode : FileMode) (uid gid : ℕ) where
    pub create_inode-config : (create_inode m now p inode mode uid gid).1.config ≡ p.config
    unfolding create_inode
    create_inode-config = elim (Option-cases p.store) [
      | inl e ↦ rw e refl
      | inr (s, e) ↦
          elim (Bool-cases (leb p.config.start_inode inode && ltb inode p.config.end_inode)) [
            | inl k ↦ rw (e, k) refl
            | inr k ↦ rw (e, k) refl
          ]
    ]

    pub lookup_dentry-create_inode :
        (q : ℕ) (n : Bytes)
        → lookup_dentry m (create_inode m now p inode mode uid gid).1 q n ≡ lookup_dentry m p q n
    unfolding create_inode lookup_dentry
    lookup_dentry-create_inode q n = elim (Option-cases p.store) [
      | inl e ↦ rw e refl
      | inr (s, e) ↦
          elim (Bool-cases (leb p.config.start_inode inode && ltb inode p.config.end_inode)) [
            | inl k ↦ elim (Bool-cases (is_ok (inode_txn m now s inode mode uid gid).1)) [
              | inl j ↦ rw (e, k, j) (law.inode_dentries now s inode mode uid gid q n)
              | inr j ↦ rw (e, k, j) refl
            ]
            | inr k ↦ rw (e, k) refl
          ]
    ]

    pub lookup-create_inode :
        inode < 2 ^ 31
        → IsCreatable mode uid gid
        → is_ok (create_inode m now p inode mode uid gid).0 ≡ true
        → lookup m (create_inode m now p inode mode uid gid).1 inode
          ≡ done (fresh_attr (shown now) inode mode uid gid)
    unfolding create_inode lookup
    lookup-create_inode w c = elim (Option-cases p.store) [
      | inl e ↦ rw e (λ h. absurd (false≢true h))
      | inr (s, e) ↦
          elim (Bool-cases (leb p.config.start_inode inode && ltb inode p.config.end_inode)) [
            | inl k ↦ elim (Bool-cases (is_ok (inode_txn m now s inode mode uid gid).1)) [
              | inl j ↦ rw (e, k, j) (λ h. law.inode_found now s inode mode uid gid w c j h)
              | inr j ↦ rw (e, k, j) (λ h. absurd (false≢true (sym j ∙ h)))
            ]
            | inr k ↦ rw (e, k) (λ h. absurd (false≢true h))
          ]
    ]

  -- The inodes of entries are words of 64 bits.
  pub lookup_dentry-word :
      (p : MetaPartition m) (q : ℕ) (n : Bytes) (d : Dentry)
      → lookup_dentry m p q n ≡ done d
      → d.inode_id < 2 ^ 64
  unfolding lookup_dentry
  lookup_dentry-word p q n d = elim (Option-cases p.store) [
    | inl e ↦ rw e (λ h. absurd (failed≢done h))
    | inr (s, e) ↦ rw e (λ h. law.dentry_word s q n d h)
  ]
