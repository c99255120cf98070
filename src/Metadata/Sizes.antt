-- ===== src/Metadata/Sizes.antt =====
-- `UpdateSize` and `SetAttr` of src/metadata/metadata_service_impl.cpp write the inode by
-- `CreateInode`.
use nimbus_store.Base.{if◌then◌else◌}
use nimbus_store.Base.{ℕ, ◌^◌, ◌<◌, Bool, true, false, Option, none, some, ◌≡◌, refl, ◌∙◌}
use mathlib.Core.Bool.{false≢true}
use nimbus_store.Metadata.Types.{done, InodeAttr, FileMode, is_ok}
use nimbus_store.Metadata.Store.{
  MetadataStore, IsMetadataStore, IsCreatable, MetaPartition, create_inode, fresh_attr,
}
use nimbus_store.Metadata.Partitions
use nimbus_store.Metadata.Service.{
  Service, locate_partition, attr_of, update_size, tell_located, set_attr, merge_attr, has_bit,
  lookup_path,
}
use nimbus_store.Bytes.{Bytes}
use nimbus_store.Metadata.Walks.{locate-on_partition, on_partition-is_ok}

chosen : (c : Bool) (a b : ℕ) → a < 2 ^ 32 → b < 2 ^ 32 → (if c then a else b) < 2 ^ 32
chosen true a b h k = h
chosen false a b h k = k

chosen_mode :
    (c : Bool) (a b : FileMode)
    → a.mode < 2 ^ 32
    → b.mode < 2 ^ 32
    → (if c then a else b).mode < 2 ^ 32
chosen_mode true a b h k = h
chosen_mode false a b h k = k

module _ (m : MetadataStore) (shown : ℕ → ℕ) (law : IsMetadataStore m shown) (now : ℕ)
    (svc : Service m) (inode : ℕ) (small : inode < 2 ^ 31) where
  rewritten :
      (mode : FileMode) (uid gid : ℕ) (o : Option ℕ)
      → IsCreatable mode uid gid
      → locate_partition m svc.partitions inode ≡ o
      → is_ok (tell_located m svc o (λ p. create_inode m now p inode mode uid gid)).0 ≡ true
      → attr_of m
          (tell_located m svc o (λ p. create_inode m now p inode mode uid gid)).1.partitions
          inode
        ≡ done (fresh_attr (shown now) inode mode uid gid)
  rewritten mode uid gid none c l h = absurd (false≢true h)
  rewritten mode uid gid (some i) fits l h =
      let f = λ (p : MetaPartition m). create_inode m now p inode mode uid gid in
      let (p, k, e) = on_partition-is_ok m f i svc.partitions h in
      let g = Partitions.lookup-create_inode m shown law now p inode mode uid gid small fits k in
      let c = λ (p : MetaPartition m).
        Partitions.create_inode-config m shown law now p inode mode uid gid in
      rw (locate-on_partition m f c i inode svc.partitions ∙ l, e) g

  -- Over a store that keeps what a transaction writes, inodes below 2^31, words of 32 bits and a time
  -- as it shows it: let an inode below 2^31 be stored under its own number,
  -- with a mode, a user and a group of 32 bits, and let updating its size answer OK. Then the inode
  -- keeps its mode, user and group; its size is 0, whatever the new size is, and its times are the
  -- present as the store shows it.
  pub attr_of-update_size :
      (new_size : ℕ) (attr : InodeAttr)
      → attr_of m svc.partitions inode ≡ done attr
      → attr.inode_id ≡ inode
      → IsCreatable attr.mode attr.uid attr.gid
      → is_ok (update_size m now svc inode new_size).0 ≡ true
      → attr_of m (update_size m now svc inode new_size).1.partitions inode
        ≡ done (fresh_attr (shown now) inode attr.mode attr.uid attr.gid)
  unfolding update_size
  attr_of-update_size new_size attr a e fits =
      rw (a, e)
        (rewritten attr.mode attr.uid attr.gid (locate_partition m svc.partitions inode) fits refl)

  -- Over a store that keeps what a transaction writes, inodes below 2^31, words of 32 bits and a time as it shows it: let a path lead to an inode below 2^31 that is stored under its own number,
  -- let its mode, user and group and the given ones be of 32 bits, and let setting attributes of the
  -- path answer OK. Then the inode has the mode, the user and the group that the mask chose; its size
  -- is 0 and its times are the present as the store shows it, whatever the mask and the attributes
  -- are.
  pub attr_of-set_attr :
      (path : Bytes) (given current : InodeAttr) (to_set : ℕ)
      → lookup_path m svc path ≡ done inode
      → attr_of m svc.partitions inode ≡ done current
      → current.inode_id ≡ inode
      → IsCreatable given.mode given.uid given.gid
      → IsCreatable current.mode current.uid current.gid
      → is_ok (set_attr m now svc path given to_set).0 ≡ true
      → attr_of m (set_attr m now svc path given to_set).1.partitions inode
        ≡ done (
            fresh_attr
              (shown now)
              inode
              (if has_bit to_set 0 then given.mode else current.mode)
              (if has_bit to_set 1 then given.uid else current.uid)
              (if has_bit to_set 2 then given.gid else current.gid))
  unfolding set_attr merge_attr
  attr_of-set_attr path given current to_set l a e new old =
      rw (l, a, e)
        (rewritten (if has_bit to_set 0 then given.mode else current.mode)
          (if has_bit to_set 1 then given.uid else current.uid)
          (if has_bit to_set 2 then given.gid else current.gid)
          (locate_partition m svc.partitions inode)
          (
            chosen_mode (has_bit to_set 0) given.mode current.mode new.0 old.0,
            chosen (has_bit to_set 1) given.uid current.uid new.1 old.1,
            chosen (has_bit to_set 2) given.gid current.gid new.2 old.2,
          )
          refl)
