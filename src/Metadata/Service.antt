-- ===== src/Metadata/Service.antt =====
-- `MetadataServiceImpl` of src/metadata/metadata_service_impl.cpp. A coroutine is the value that it
-- returns; a partition is its index in the list of partitions, which is not empty once one of them
-- was located.
use nimbus_store.Base.{
  ℕ, zero, suc, ◌+◌, ◌*◌, ◌/◌, ◌%◌, ◌^◌, List, [], ◌∷◌, ◌++◌, Bool, ◌&&◌, Option, none, some, leb,
  ltb, ◌==◌, get_elem?, if◌then◌else◌,
}
use nimbus_store.Bytes.{Bytes, codes, bytes_eq}
use nimbus_store.SliceTree.{SliceInfo}
use nimbus_store.Metadata.Types.{
  Status, Result, done, failed, after_call, FileType, regular, directory, is_directory_type,
  FileMode, is_directory, directory_mode, InodeAttr, Dentry, is_ok, fine, io, not_found, exist,
  not_directory, invalid_argument,
}
use nimbus_store.Metadata.Paths.{parse_path, split_parent_child}
use nimbus_store.Metadata.Store.{
  MetadataStore, MetaPartition, lookup, lookup_dentry, create_dentry, create_inode,
}

pub record FileLayout : Type 0 where
  pub inode_id : ℕ
  pub chunk_size : ℕ
  pub slices : List SliceInfo

abbrev no_partition : Status
no_partition = io (codes "No partition available")

-- `to_set & (1 << bit)`
abbrev pub has_bit : ℕ → ℕ → Bool
has_bit to_set bit = to_set / 2 ^ bit % 2 == 1

-- the attributes that the mask names
unfoldable pub merge_attr : ℕ → InodeAttr → InodeAttr → InodeAttr
merge_attr to_set attr current = record current {
  mode = if has_bit to_set 0 then attr.mode else current.mode;
  uid = if has_bit to_set 1 then attr.uid else current.uid;
  gid = if has_bit to_set 2 then attr.gid else current.gid;
  size = if has_bit to_set 3 then attr.size else current.size;
  mtime = if has_bit to_set 4 then attr.mtime else current.mtime;
}

module _ (m : MetadataStore) where
  -- the partitions and `next_inode_`
  pub record Service : Type 0 where
    pub partitions : List (MetaPartition m)
    pub next_inode : ℕ

  abbrev pub owns : MetaPartition m → ℕ → Bool
  owns p inode = leb p.config.start_inode inode && ltb inode p.config.end_inode

  unfoldable pub first_owner : List (MetaPartition m) → ℕ → Option ℕ
  first_owner [] inode = none
  first_owner (p ∷ ps) inode =
      if owns p inode
      then some 0
      else elim (first_owner ps inode) [ some i ↦ some (suc i) | none ↦ none ]

  -- the first partition where none has the inode in its range
  abbrev pub or_first : List (MetaPartition m) → Option ℕ → Option ℕ
  or_first ps (some i) = some i
  or_first [] none = none
  or_first (p ∷ ps) none = some 0

  unfoldable pub locate_partition : List (MetaPartition m) → ℕ → Option ℕ
  unfolding first_owner
  locate_partition ps inode = or_first ps (first_owner ps inode)

  -- a call of the partition at an index that reads, and of one that writes
  abbrev pub ask : {A : Type 0} → Option (MetaPartition m) → (MetaPartition m → Result A) → Result A
  ask none f = failed no_partition
  ask (some p) f = f p

  unfoldable pub on_partition :
      ℕ
      → (MetaPartition m → Status × MetaPartition m)
      → List (MetaPartition m)
      → Status × List (MetaPartition m)
  on_partition i f [] = (no_partition, [])
  on_partition zero f (p ∷ ps) = let (status, p') = f p in (status, p' ∷ ps)
  on_partition (suc i) f (p ∷ ps) = let (status, ps') = on_partition i f ps in (status, p ∷ ps')

  -- a call of the partition that has an inode
  abbrev pub ask_located :
      {A : Type 0} → List (MetaPartition m) → Option ℕ → (MetaPartition m → Result A) → Result A
  ask_located ps none f = failed no_partition
  ask_located ps (some i) f = ask (get_elem? ps i) f

  abbrev pub tell_located :
      Service → Option ℕ → (MetaPartition m → Status × MetaPartition m) → Status × Service
  tell_located svc none f = (no_partition, svc)
  tell_located svc (some i) f =
      let (status, ps) = on_partition i f svc.partitions in (status, record svc { partitions = ps })

  abbrev pub dentry_of : List (MetaPartition m) → ℕ → Bytes → Result Dentry
  dentry_of ps parent name =
      ask_located ps (locate_partition ps parent) (λ p. lookup_dentry m p parent name)

  abbrev pub attr_of : List (MetaPartition m) → ℕ → Result InodeAttr
  attr_of ps inode = ask_located ps (locate_partition ps inode) (λ p. lookup m p inode)

  -- the test of `LookupPath` for a partition, before the call
  abbrev pub walk_failure : Option ℕ → Bytes → Status
  walk_failure none part = no_partition
  walk_failure (some i) part = not_found (codes "Path not found: " ++ part)

  unfoldable pub lookup_parts : List (MetaPartition m) → ℕ → List Bytes → Result ℕ
  lookup_parts ps current [] = done current
  lookup_parts ps current (part ∷ parts) =
      after_call (dentry_of ps current part)
        (λ s. failed (walk_failure (locate_partition ps current) part))
        (λ dentry. lookup_parts ps dentry.inode_id parts)

  unfoldable pub lookup_path : Service → Bytes → Result ℕ
  unfolding lookup_parts
  lookup_path svc path =
      after_call (parse_path path) failed (λ parts. lookup_parts svc.partitions 1 parts)

  abbrev pub type_of : FileMode → FileType
  type_of mode = if is_directory mode then directory else regular

  -- the new inode, and then its entry in the parent, at the partition `i`
  unfoldable pub create_entry : ℕ → Service → ℕ → ℕ → Bytes → FileMode → ℕ → ℕ → Status × Service
  create_entry now svc i parent name mode uid gid =
      let new_inode = svc.next_inode in
      let svc = record svc { next_inode = (new_inode + 1) % 2 ^ 64 } in
      let (status, svc) =
        tell_located svc (locate_partition svc.partitions new_inode)
          (λ p. create_inode m now p new_inode mode uid gid) in
      if is_ok status
      then tell_located svc (some i) (λ p. create_dentry m p parent name new_inode (type_of mode))
      else (status, svc)

  abbrev create_at : ℕ → Service → Option ℕ → ℕ → Bytes → FileMode → ℕ → ℕ → Status × Service
  create_at now svc none parent name mode uid gid = (no_partition, svc)
  create_at now svc (some i) parent name mode uid gid =
      after_call (dentry_of svc.partitions parent name)
        (λ s. create_entry now svc i parent name mode uid gid)
        (λ existing. (exist (codes "File already exists"), svc))

  unfoldable pub create : ℕ → Service → Bytes → FileMode → ℕ → ℕ → Status × Service
  unfolding lookup_path create_entry
  create now svc path mode uid gid =
      let (parent_path, name) = split_parent_child path in
      if bytes_eq name []
      then (exist (codes "Root already exists"), svc)
      else after_call (lookup_path svc parent_path)
          (λ s. (not_found (codes "Parent directory not found"), svc))
          (λ parent.
            create_at now svc (locate_partition svc.partitions parent) parent name mode uid gid)

  unfoldable pub mkdir : ℕ → Service → Bytes → FileMode → ℕ → ℕ → Status × Service
  unfolding create directory_mode
  mkdir now svc path mode uid gid = create now svc path (directory_mode mode) uid gid

  unfoldable pub get_attr : Service → Bytes → Result InodeAttr
  unfolding lookup_path
  get_attr svc path =
      after_call (lookup_path svc path) failed (λ inode. attr_of svc.partitions inode)

  -- `CreateInode` again, of an inode whose attributes are known
  abbrev rewrite_inode : ℕ → Service → Option ℕ → InodeAttr → Status × Service
  rewrite_inode now svc i attr =
      tell_located svc i (λ p. create_inode m now p attr.inode_id attr.mode attr.uid attr.gid)

  unfoldable pub set_attr : ℕ → Service → Bytes → InodeAttr → ℕ → Status × Service
  unfolding lookup_path merge_attr
  set_attr now svc path attr to_set =
      after_call (lookup_path svc path) (λ s. (s, svc))
        (λ inode.
          after_call (attr_of svc.partitions inode) (λ s. (s, svc))
            (λ current.
              rewrite_inode now svc (locate_partition svc.partitions inode)
                (merge_attr to_set attr current)))

  unfoldable pub update_size : ℕ → Service → ℕ → ℕ → Status × Service
  update_size now svc inode new_size =
      after_call (attr_of svc.partitions inode) (λ s. (s, svc))
        (λ attr.
          rewrite_inode now svc (locate_partition svc.partitions inode)
            (record attr { size = new_size; mtime = now }))

  -- the error of a missing entry, and of a missing partition before it
  abbrev entry_failure : Option ℕ → Bytes → Status
  entry_failure none msg = no_partition
  entry_failure (some i) msg = not_found msg

  -- The entry is found and left.
  unfoldable pub unlink : Service → Bytes → Status
  unfolding lookup_path
  unlink svc path =
      let (parent_path, name) = split_parent_child path in
      if bytes_eq name []
      then invalid_argument (codes "Cannot unlink root")
      else after_call (lookup_path svc parent_path) (λ s. s)
          (λ parent.
            after_call (dentry_of svc.partitions parent name)
              (λ s. entry_failure (locate_partition svc.partitions parent) (codes "File not found"))
              (λ dentry.
                if is_directory_type dentry.type
                then invalid_argument (codes "Cannot unlink directory, use rmdir")
                else fine))

  unfoldable pub rmdir : Service → Bytes → Status
  unfolding lookup_path
  rmdir svc path =
      let (parent_path, name) = split_parent_child path in
      if bytes_eq name []
      then invalid_argument (codes "Cannot remove root")
      else after_call (lookup_path svc parent_path) (λ s. s)
          (λ parent.
            after_call (dentry_of svc.partitions parent name)
              (λ s.
                entry_failure (locate_partition svc.partitions parent)
                  (codes "Directory not found"))
              (λ dentry.
                if is_directory_type dentry.type
                then fine
                else not_directory (codes "Not a directory")))

  -- The old entry is left.
  unfoldable pub rename : Service → Bytes → Bytes → Status × Service
  unfolding lookup_path
  rename svc oldpath newpath =
      let (old_parent, old_name) = split_parent_child oldpath in
      let (new_parent, new_name) = split_parent_child newpath in
      if bytes_eq old_name []
      then (invalid_argument (codes "Cannot rename root"), svc)
      else if bytes_eq new_name []
      then (invalid_argument (codes "Cannot rename root"), svc)
      else after_call (lookup_path svc old_parent) (λ s. (s, svc))
          (λ old_inode.
            after_call (lookup_path svc new_parent)
              (λ s. (not_found (codes "Target directory not found"), svc))
              (λ new_inode.
                after_call (dentry_of svc.partitions old_inode old_name)
                  (λ s. (
                    entry_failure (locate_partition svc.partitions old_inode)
                        (codes "Source not found"),
                    svc,
                  ))
                  (λ src.
                    tell_located svc (locate_partition svc.partitions new_inode)
                      (λ p. create_dentry m p new_inode new_name src.inode_id src.type))))

  -- The entries of a directory are not read.
  unfoldable pub readdir : Service → Bytes → Result (List Dentry)
  unfolding lookup_path
  readdir svc path = after_call (lookup_path svc path) failed (λ dir_inode.
      after_call (attr_of svc.partitions dir_inode) failed (λ attr.
        if is_directory attr.mode
        then done []
        else failed (not_directory (codes "Not a directory"))))

  -- the layout of an inode without slices, whatever was added
  abbrev layout_at : Option ℕ → ℕ → Result FileLayout
  layout_at none inode = failed no_partition
  layout_at (some i) inode =
      done (record { inode_id = inode; chunk_size = 4 * 1024 * 1024; slices = [] })

  unfoldable pub get_layout : Service → ℕ → Result FileLayout
  get_layout svc inode = layout_at (locate_partition svc.partitions inode) inode

  abbrev added : Option ℕ → Status
  added none = no_partition
  added (some i) = fine

  unfoldable pub add_slice : Service → ℕ → SliceInfo → Status
  add_slice svc inode slice = added (locate_partition svc.partitions inode)
