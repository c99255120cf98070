-- ===== src/Engine/Operations.antt =====
-- `KVMetaEngine` of include/nebulastore/metadata/meta_engine.h over a key-value client. A result
-- `done none` is a read that leaves the value that it decodes.
use nimbus_store.Base.{
  ℕ, ◌+◌, ◌*◌, ◌%◌, ◌^◌, List, [], ◌∷◌, ◌++◌, Option, none, some, length, drop, leb, if◌then◌else◌,
}
use nimbus_store.Base.Options.{◌>>=◌}
use nimbus_store.Bytes.{Bytes, codes}
use nimbus_store.OrderedMap.{Map}
use nimbus_store.SliceTree.{SliceInfo}
use nimbus_store.Metadata.Types.{
  Status, Result, done, failed, after_call, FileType, FileMode, InodeAttr, Dentry,
}
use nimbus_store.Metadata.Store.{fresh_attr}
use nimbus_store.Metadata.Service.{FileLayout}
use nimbus_store.Engine.Client.{KvClient}
use nimbus_store.Engine.Codec.{
  encode_u64, inode_key, dentry_key, slice_key, encode_inode_value, decode_inode_value,
  encode_dentry_value, decode_dentry_value, encode_slice_value, decode_slice_value,
}

-- `key.substr(9)`, behind the tag and the parent
abbrev pub name_of_key : Bytes → Option Bytes
name_of_key key = if leb 9 (length key) then some (drop 9 key) else none

-- the loops of `Readdir` and of `GetLayout` over what was scanned
unfoldable pub read_dentries : Map → Option (List Dentry)
read_dentries [] = some []
read_dentries ((key, value) ∷ kvs) = do
  d ← decode_dentry_value value
  name ← name_of_key key
  ds ← read_dentries kvs
  some (record d { name = name } ∷ ds)

unfoldable pub read_slices : Map → Option (List SliceInfo)
read_slices [] = some []
read_slices ((key, value) ∷ kvs) = do
  slice ← decode_slice_value value
  slices ← read_slices kvs
  some (slice ∷ slices)

-- `next_inode_.fetch_add(1)`: the inode, and the counter after it
unfoldable pub allocate_inode_id : ℕ → ℕ × ℕ
allocate_inode_id next_inode = (next_inode, (next_inode + 1) % 2 ^ 64)

module _ (c : KvClient) where
  open c use {State}

  -- the first argument is the clock
  unfoldable pub create_inode : ℕ → State → ℕ → FileMode → ℕ → ℕ → State × Status
  create_inode now s inode mode uid gid =
      c.set s (inode_key inode) (encode_inode_value (fresh_attr now inode mode uid gid))

  unfoldable pub get_attr : State → ℕ → Result (Option InodeAttr)
  get_attr s inode =
      after_call (c.get s (inode_key inode)) failed (λ value. done (decode_inode_value value))

  -- The mask is not read.
  unfoldable pub set_attr : State → ℕ → InodeAttr → ℕ → State × Status
  set_attr s inode attr to_set = c.set s (inode_key inode) (encode_inode_value attr)

  unfoldable pub delete_inode : State → ℕ → State × Status
  delete_inode s inode = c.delete s (inode_key inode)

  abbrev with_name : Bytes → Option Dentry → Option Dentry
  with_name name none = none
  with_name name (some d) = some (record d { name = name })

  unfoldable pub lookup : State → ℕ → Bytes → Result (Option Dentry)
  lookup s parent name =
      after_call (c.get s (dentry_key parent name)) failed
        (λ value. done (with_name name (decode_dentry_value value)))

  unfoldable pub create_dentry : State → ℕ → Bytes → ℕ → FileType → State × Status
  create_dentry s parent name inode type =
      c.set s (dentry_key parent name)
        (encode_dentry_value (record { name = name; inode_id = inode; type = type }))

  unfoldable pub delete_dentry : State → ℕ → Bytes → State × Status
  delete_dentry s parent name = c.delete s (dentry_key parent name)

  unfoldable pub readdir : State → ℕ → Result (Option (List Dentry))
  readdir s parent =
      let prefix = codes "D" ++ encode_u64 parent in
      let end = codes "D" ++ encode_u64 ((parent + 1) % 2 ^ 64) in
      after_call (c.scan s prefix end 0) failed (λ kvs. done (read_dentries kvs))

  unfoldable pub add_slice : State → ℕ → SliceInfo → State × Status
  add_slice s inode slice = c.set s (slice_key inode slice.offset) (encode_slice_value slice)

  abbrev layout_of : ℕ → Option (List SliceInfo) → Option FileLayout
  layout_of inode none = none
  layout_of inode (some slices) =
      some (record { inode_id = inode; chunk_size = 4 * 1024 * 1024; slices = slices })

  unfoldable pub get_layout : State → ℕ → Result (Option FileLayout)
  get_layout s inode =
      let prefix = codes "S" ++ encode_u64 inode in
      let end = codes "S" ++ encode_u64 ((inode + 1) % 2 ^ 64) in
      after_call (c.scan s prefix end 0) failed (λ kvs. done (layout_of inode (read_slices kvs)))
