-- ===== src/Metadata/Created.antt =====
-- `Create` of src/metadata/metadata_service_impl.cpp, and what is found after it.
use nimbus_store.Base.{
  ℕ, ◌^◌, ◌<◌, get_elem?, arith, List, [], ◌∷◌, ◌++◌, true, some, ◌≡◌, ◌≢◌, ◌⊎◌, inl, inr, refl, ap,
  sym, ◌∙◌, All, Bool-cases, Option-cases, All-append,
}
use nimbus_store.Bytes.{Bytes}
use mathlib.Core.Bool.{false≢true}
use nimbus_store.Metadata.Types.{
  Status, done, failed, Dentry, FileMode, FileType, IsNamed, is_directory, failed≢done, is_ok,
  Result-cases,
}
use nimbus_store.Metadata.Store.{
  MetadataStore, IsMetadataStore, IsCreatable, MetaPartition, lookup, lookup_dentry, create_dentry,
  create_inode, fresh_attr,
}
use nimbus_store.Metadata.Paths.Joined.{
  IsName, absolute, directory_path, parse_path-directory_path, split_parent_child-absolute,
  not_equal,
}
use nimbus_store.Metadata.Partitions
use nimbus_store.Metadata.Service.{
  Service, locate_partition, on_partition, dentry_of, attr_of, lookup_parts, lookup_path,
  create_entry, create, get_attr, type_of,
}
use nimbus_store.Metadata.Walks.{
  locate-on_partition, ask_located-on_partition, on_partition-is_ok, lookup_parts-same,
  lookup_parts-word, IsWalked, lookup_parts-append,
}

module _ (m : MetadataStore) (shown : ℕ → ℕ) (law : IsMetadataStore m shown) where
  dentry_of-IsWalked : (ps : List (MetaPartition m)) → IsWalked m ps
  dentry_of-IsWalked ps q n d = elim (Option-cases (locate_partition m ps q)) [
    | inl e ↦ rw e (λ h. absurd (failed≢done h))
    | inr (i, e) ↦ elim (Option-cases (get_elem? ps i)) [
      | inl k ↦ rw (e, k) (λ h. absurd (failed≢done h))
      | inr (p, k) ↦ rw (e, k) (λ h. Partitions.lookup_dentry-word m shown law p q n d h)
    ]
  ]

module _ (m : MetadataStore) (shown : ℕ → ℕ) (law : IsMetadataStore m shown) (now : ℕ)
    (ps : List (MetaPartition m)) (mode : FileMode) (uid gid : ℕ)
    (creatable : IsCreatable mode uid gid) where
  -- `CreateInode` of the partition `j`, and then `CreateDentry` of the partition `i`
  module _ (inode parent : ℕ) (name : Bytes) (type : FileType) (i j : ℕ) (small : inode < 2 ^ 31)
      (word : parent < 2 ^ 64) (named : IsNamed type) where
    abbrev first : MetaPartition m → Status × MetaPartition m
    first p = create_inode m now p inode mode uid gid

    abbrev second : MetaPartition m → Status × MetaPartition m
    second p = create_dentry m p parent name inode type

    abbrev pub between : List (MetaPartition m)
    between = (on_partition m j first ps).1

    abbrev pub after : List (MetaPartition m)
    after = (on_partition m i second between).1

    first-config : (p : MetaPartition m) → (first p).1.config ≡ p.config
    first-config p = Partitions.create_inode-config m shown law now p inode mode uid gid

    second-config : (p : MetaPartition m) → (second p).1.config ≡ p.config
    second-config p = Partitions.create_dentry-config m shown law p parent name inode type

    locate-after : (q : ℕ) → locate_partition m after q ≡ locate_partition m ps q
    locate-after q =
        locate-on_partition m second second-config i q between
        ∙ locate-on_partition m first first-config j q ps

    dentry_of-after :
        (q : ℕ) (n : Bytes)
        → q < 2 ^ 64
        → ((q ≢ parent) ⊎ (n ≢ name))
        → dentry_of m after q n ≡ dentry_of m ps q n
    dentry_of-after q n v h =
        ask_located-on_partition m second (λ p. lookup_dentry m p q n) second-config
          (λ p.
            Partitions.lookup_dentry-create_dentry_ne m shown law p parent name inode type q n word
              v h)
          i q between
        ∙ ask_located-on_partition m first (λ p. lookup_dentry m p q n) first-config
            (λ p. Partitions.lookup_dentry-create_inode m shown law now p inode mode uid gid q n) j
            q ps

    dentry_of-created :
        locate_partition m ps parent ≡ some i
        → is_ok (on_partition m i second between).0 ≡ true
        → (d : Dentry) × (dentry_of m after parent name ≡ done d) × (d.inode_id ≡ inode)
    dentry_of-created l h =
        let (p, k, e) = on_partition-is_ok m second i between h in
        let (d, f, g, _) =
          Partitions.lookup_dentry-create_dentry m shown law p parent name inode type word small
            named k in
        (d, rw (locate-after parent ∙ l, e) f, g)

    attr_of-created :
        locate_partition m ps inode ≡ some j
        → is_ok (on_partition m j first ps).0 ≡ true
        → attr_of m after inode ≡ done (fresh_attr (shown now) inode mode uid gid)
    attr_of-created l h =
        let (p, k, e) = on_partition-is_ok m first j ps h in
        let f =
          Partitions.lookup-create_inode m shown law now p inode mode uid gid small creatable k in
        ask_located-on_partition m second (λ p. lookup m p inode) second-config
          (λ p. Partitions.lookup-create_dentry m shown law p parent name inode type inode) i inode
          between
        ∙ rw (locate-on_partition m first first-config j inode ps ∙ l, e) f

    pub created :
        (names : List Bytes) (s : Status)
        → locate_partition m ps parent ≡ some i
        → locate_partition m ps inode ≡ some j
        → lookup_parts m ps 1 names ≡ done parent
        → dentry_of m ps parent name ≡ failed s
        → is_ok (on_partition m j first ps).0 ≡ true
        → is_ok (on_partition m i second between).0 ≡ true
        → (lookup_parts m after 1 (names ++ name ∷ []) ≡ done inode)
          × (attr_of m after inode ≡ done (fresh_attr (shown now) inode mode uid gid))
    created names s li lj w x h k =
        let (d, e, g) = dentry_of-created li k in
        let w' =
          lookup_parts-same m ps after parent name s x (dentry_of-IsWalked m shown law ps)
            dentry_of-after 1 parent names (omega arith) w in
        (lookup_parts-append m after 1 parent names name d w' e ∙ ap done g, attr_of-created lj h)

module _ (m : MetadataStore) where
  pub lookup_path-directory_path :
      (svc : Service m) (names : List Bytes)
      → All IsName names
      → lookup_path m svc (directory_path names) ≡ lookup_parts m svc.partitions 1 names
  unfolding lookup_path
  lookup_path-directory_path svc names h = rw (parse_path-directory_path names h) refl

  pub lookup_path-absolute :
      (svc : Service m) (names : List Bytes) (name : Bytes)
      → All IsName names
      → IsName name
      → lookup_path m svc (absolute (names ++ name ∷ []))
        ≡ lookup_parts m svc.partitions 1 (names ++ name ∷ [])
  lookup_path-absolute svc [] name h k = lookup_path-directory_path svc (name ∷ []) (k, tt)
  lookup_path-absolute svc (n ∷ names) name h k =
      lookup_path-directory_path svc (n ∷ names ++ name ∷ [])
        (h.0, All-append IsName names (name ∷ []) h.1 (k, tt))

module _ (m : MetadataStore) (shown : ℕ → ℕ) (law : IsMetadataStore m shown) (now : ℕ)
    (svc : Service m) (mode : FileMode) (uid gid : ℕ) (small : svc.next_inode < 2 ^ 31)
    (creatable : IsCreatable mode uid gid) where
  type_of-IsNamed : (mode' : FileMode) → IsNamed (type_of m mode')
  type_of-IsNamed mode' = elim (Bool-cases (is_directory mode')) [
    | inl e ↦ rw e tt
    | inr e ↦ rw e tt
  ]

  -- What is found in the partitions of a service for a path of names.
  abbrev Found : Service m → List Bytes → Type 0
  Found svc' names =
      (lookup_parts m svc'.partitions 1 names ≡ done svc.next_inode)
      × (attr_of m svc'.partitions svc.next_inode
          ≡ done (fresh_attr (shown now) svc.next_inode mode uid gid))

  create_entry-Found :
      (names : List Bytes) (name : Bytes) (parent i : ℕ) (s : Status)
      → locate_partition m svc.partitions parent ≡ some i
      → lookup_parts m svc.partitions 1 names ≡ done parent
      → dentry_of m svc.partitions parent name ≡ failed s
      → is_ok (create_entry m now svc i parent name mode uid gid).0 ≡ true
      → Found (create_entry m now svc i parent name mode uid gid).1 (names ++ name ∷ [])
  unfolding create_entry
  create_entry-Found names name parent i s l w x =
      elim (Option-cases (locate_partition m svc.partitions svc.next_inode)) [
        | inl e ↦ rw e (λ h. absurd (false≢true h))
        | inr (j, e) ↦
            elim (Bool-cases (
              is_ok
                (on_partition m j (λ p. create_inode m now p svc.next_inode mode uid gid)
                  svc.partitions).0)) [
                    | inl k ↦
                        rw (e, k)
                          (λ h.
                            created m shown law now svc.partitions mode uid gid creatable
                              svc.next_inode parent name (type_of m mode) i j small
                              (lookup_parts-word m svc.partitions
                                (dentry_of-IsWalked m shown law svc.partitions) 1 parent names
                                (omega arith) w)
                              (type_of-IsNamed mode) names s l e w x k h)
                    | inr k ↦ rw (e, k) (λ h. absurd (false≢true (sym k ∙ h)))
                  ]
      ]

  create-Found :
      (names : List Bytes) (name : Bytes)
      → All IsName names
      → IsName name
      → is_ok (create m now svc (absolute (names ++ name ∷ [])) mode uid gid).0 ≡ true
      → Found (create m now svc (absolute (names ++ name ∷ [])) mode uid gid).1 (names ++ name ∷ [])
  unfolding create
  create-Found names name h k =
      let b = not_equal name [] k.0 in
      let d = lookup_path-directory_path m svc names h in
      elim (Result-cases (lookup_parts m svc.partitions 1 names)) [
        | inr (s, w) ↦
            rw (split_parent_child-absolute names name h k, b, d, w) (λ e. absurd (false≢true e))
        | inl (parent, w) ↦ elim (Option-cases (locate_partition m svc.partitions parent)) [
          | inl l ↦
              rw (split_parent_child-absolute names name h k, b, d, w, l)
                (λ e. absurd (false≢true e))
          | inr (i, l) ↦ elim (Result-cases (dentry_of m svc.partitions parent name)) [
            | inl (entry, x) ↦
                rw (split_parent_child-absolute names name h k, b, d, w, l, x)
                  (λ e. absurd (false≢true e))
            | inr (s, x) ↦
                rw (split_parent_child-absolute names name h k, b, d, w, l, x)
                  (create_entry-Found names name parent i s l w x)
          ]
        ]
      ]

  -- Over a store that keeps what a transaction writes, inodes below 2^31, words of 32 bits and a
  -- time as it shows it: let creating a file at an absolute path, of names that are not empty and
  -- without slashes, answer OK, where the next inode of the service is below 2^31 and the mode, the
  -- user and the group are of 32 bits. Then the path leads to that inode, and its attributes are
  -- those of a new inode with the mode, the user and the group that were given, and the times as
  -- the store shows the present.
  pub lookup_path-create :
      (names : List Bytes) (name : Bytes)
      → All IsName names
      → IsName name
      → is_ok (create m now svc (absolute (names ++ name ∷ [])) mode uid gid).0 ≡ true
      → (lookup_path m
            (create m now svc (absolute (names ++ name ∷ [])) mode uid gid).1
            (absolute (names ++ name ∷ []))
          ≡ done svc.next_inode)
        × (get_attr m
              (create m now svc (absolute (names ++ name ∷ [])) mode uid gid).1
              (absolute (names ++ name ∷ []))
            ≡ done (fresh_attr (shown now) svc.next_inode mode uid gid))
  unfolding get_attr
  lookup_path-create names name h k e =
      let after = (create m now svc (absolute (names ++ name ∷ [])) mode uid gid).1 in
      let (found, attr) = create-Found names name h k e in
      let p = lookup_path-absolute m after names name h k ∙ found in (p, rw p attr)
