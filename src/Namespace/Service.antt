-- ===== src/Namespace/Service.antt =====
-- `NamespaceService` of src/namespace/service.cpp over a metadata service and a storage backend.
-- `to_string` is the C++ library's `std::to_string`, and `default_bucket` the configuration's.
use nimbus_store.Base.{ℕ, List, [], ◌∷◌, ◌++◌, Bool, ◌&&◌, length, ltb, leb, if◌then◌else◌}
use nimbus_store.Bytes.{Bytes, codes}
use nimbus_store.SliceTree.{SliceInfo, add_word, sub_word}
use nimbus_store.Metadata.Types.{
  Status, Result, failed, after_call, InodeAttr, Dentry, is_ok, not_found,
}
use nimbus_store.Metadata.Service.{FileLayout}
use nimbus_store.Metadata.Interface.{MetadataService}
use nimbus_store.Storage.{StorageBackend}
use nimbus_store.Namespace.{parse}

module _ (ms : MetadataService) (sb : StorageBackend) (to_string : ℕ → Bytes)
    (default_bucket : Bytes) where
  -- the states of the two services
  pub record World : Type 0 where
    pub metadata : ms.State
    pub storage : sb.State

  abbrev pub posix_path_of : Bytes → Bytes
  posix_path_of path = (parse default_bucket path).posix_path

  unfoldable pub get_attr : World → Bytes → Result InodeAttr
  get_attr w path = ms.get_attr w.metadata (posix_path_of path)

  unfoldable pub get_layout : World → Bytes → Result FileLayout
  get_layout w path =
      after_call (ms.lookup_path w.metadata (posix_path_of path)) failed
        (λ inode. ms.get_layout w.metadata inode)

  -- `std::min`
  abbrev pub min_of : ℕ → ℕ → ℕ
  min_of a b = if ltb b a then b else a

  abbrev pub covers : SliceInfo → ℕ → Bool
  covers s offset = leb s.offset offset && ltb offset (add_word s.offset s.size)

  -- the loop of `Read` over the slices
  unfoldable pub read_slices : sb.State → List SliceInfo → ℕ → ℕ → Result Bytes
  read_slices storage [] offset size = failed (not_found (codes "No slice found for offset"))
  read_slices storage (s ∷ slices) offset size =
      let slice_offset = sub_word offset s.offset in
      let read_size = min_of size (sub_word s.size slice_offset) in
      if covers s offset
      then sb.get_range storage s.storage_key slice_offset read_size
      else read_slices storage slices offset size

  unfoldable pub read : World → Bytes → ℕ → ℕ → Result Bytes
  unfolding read_slices
  read w path offset size =
      after_call (ms.lookup_path w.metadata (posix_path_of path)) failed (λ inode.
        after_call (ms.get_layout w.metadata inode) failed
          (λ layout. read_slices w.storage layout.slices offset size))

  abbrev pub storage_key_of : ℕ → ℕ → Bytes
  storage_key_of inode offset =
      codes "chunks/" ++ (to_string inode ++ (codes "/" ++ to_string offset))

  abbrev pub slice_of : ℕ → Bytes → ℕ → SliceInfo
  slice_of inode content offset = record {
    slice_id = 0;
    offset = offset;
    size = length content;
    storage_key = storage_key_of inode offset;
  }

  -- `Write` once the inode is known: the content, the slice, and the size
  unfoldable pub write_inode : ℕ → World → ℕ → Bytes → ℕ → Status × World
  write_inode now w inode content offset =
      let (status, storage) = sb.put w.storage (storage_key_of inode offset) content in
      let w' = record w { storage = storage } in
      if is_ok status
      then (let (status', metadata) =
            ms.add_slice w'.metadata inode (slice_of inode content offset) in
          let w'' = record w' { metadata = metadata } in
          if is_ok status'
          then (let (status'', metadata') =
                ms.update_size now w''.metadata inode (add_word offset (length content)) in
              (status'', record w'' { metadata = metadata' }))
          else (status', w''))
      else (status, w')

  unfoldable pub write : ℕ → World → Bytes → Bytes → ℕ → Status × World
  unfolding write_inode
  write now w path content offset =
      after_call (ms.lookup_path w.metadata (posix_path_of path)) (λ s. (s, w))
        (λ inode. write_inode now w inode content offset)

  unfoldable pub readdir : World → Bytes → Result (List Dentry)
  readdir w path = ms.readdir w.metadata (posix_path_of path)
