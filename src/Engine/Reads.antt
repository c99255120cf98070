-- ===== src/Engine/Reads.antt =====
-- What `KVMetaEngine` reads after a write, over any client that is an ordered map.
use nimbus_store.Base.{
  ℕ, ◌^◌, ◌<◌, [], true, ◌&&◌, some, ◌==◌, ◌≡◌, refl, ap, ◌∙◌, arith, if◌then◌else◌,
}
use nimbus_store.Bytes.{Bytes, bytes_eq}
use nimbus_store.OrderedMap.{find}
use nimbus_store.OrderedMap.Laws.{find-insert, find-erase}
use nimbus_store.Metadata.Types.{
  done, failed, FileType, InodeAttr, Dentry, IsNamed, is_ok, not_found,
}
use nimbus_store.Engine.Client.{KvClient, IsOrderedClient, get_of}
use nimbus_store.Engine.Codec.{inode_key, dentry_key, encode_inode_value, encode_dentry_value}
use nimbus_store.Engine.Codec.RoundTrip.{
  IsInodeAttr, decode-encode_inode_value, decode-encode_dentry_value,
}
use nimbus_store.Engine.Keys.{bytes_eq-dentry_key, bytes_eq-inode_key, bytes_eq-tag}
use nimbus_store.Engine.Operations.{get_attr, set_attr, lookup, create_dentry, delete_dentry}

module _ (c : KvClient) (o : IsOrderedClient c) where
  -- what is read after a write of a key, or a deletion
  get-set :
      (s : c.State) (j k v : Bytes)
      → is_ok (c.set s k v).1 ≡ true
      → c.get (c.set s k v).0 j ≡ (if bytes_eq j k then done v else c.get s j)
  get-set s j k v h =
      o.get_entries (c.set s k v).0 j
      ∙ ap (λ m. get_of (find j m)) (o.set_done s k v h)
      ∙ ap get_of (find-insert j k v (o.entries s))
      ∙ ground (arith, o.get_entries s j)

  get-delete :
      (s : c.State) (j k : Bytes)
      → is_ok (c.delete s k).1 ≡ true
      → c.get (c.delete s k).0 j ≡ (if bytes_eq j k then failed (not_found []) else c.get s j)
  get-delete s j k h =
      o.get_entries (c.delete s k).0 j
      ∙ ap (λ m. get_of (find j m)) (o.delete_done s k h)
      ∙ ap get_of (find-erase j k (o.entries s))
      ∙ ground (arith, o.get_entries s j)

  -- Over a client that is an ordered map, setting attributes that fit their types and reporting OK
  -- makes them the attributes of the inode, whatever the mask is, and leaves those of every other
  -- inode and every directory entry as they were.
  pub get_attr-set_attr :
      (s : c.State) (inode to_set j q : ℕ) (n : Bytes) (attr : InodeAttr)
      → inode < 2 ^ 64
      → j < 2 ^ 64
      → IsInodeAttr attr
      → is_ok (set_attr c s inode attr to_set).1 ≡ true
      → (get_attr c (set_attr c s inode attr to_set).0 j
          ≡ (if j == inode then done (some attr) else get_attr c s j))
        × (lookup c (set_attr c s inode attr to_set).0 q n ≡ lookup c s q n)
  unfolding set_attr get_attr lookup
  get_attr-set_attr s inode to_set j q n attr h k fit ok =
      let value = encode_inode_value attr in
      (
        rw (get-set s (inode_key j) (inode_key inode) value ok, bytes_eq-inode_key j inode k h)
            (ground (arith, decode-encode_inode_value attr fit)),
        rw
            (
              get-set s (dentry_key q n) (inode_key inode) value ok,
              bytes_eq-tag 68 73 _ _ (λ e. absurd (omega (arith, e))),
            )
            refl,
      )

  -- Over a client that is an ordered map, creating a directory entry of a named type and reporting
  -- OK makes it the entry of its parent and name, and leaves every other entry and the attributes
  -- of every inode as they were; inodes are 64-bit words.
  pub lookup-create_dentry :
      (s : c.State) (parent inode q j : ℕ) (name n : Bytes) (type : FileType)
      → parent < 2 ^ 64
      → inode < 2 ^ 64
      → q < 2 ^ 64
      → IsNamed type
      → is_ok (create_dentry c s parent name inode type).1 ≡ true
      → (lookup c (create_dentry c s parent name inode type).0 q n ≡ (
          if q == parent && bytes_eq n name
          then done (some (record { name = n; inode_id = inode; type = type }))
          else lookup c s q n))
        × (get_attr c (create_dentry c s parent name inode type).0 j ≡ get_attr c s j)
  unfolding create_dentry get_attr lookup
  lookup-create_dentry s parent inode q j name n type h k w named ok =
      let d : Dentry = record { name = name; inode_id = inode; type = type } in
      let value = encode_dentry_value d in
      (
        rw
            (
              get-set s (dentry_key q n) (dentry_key parent name) value ok,
              bytes_eq-dentry_key q parent n name w h,
            )
            (ground (arith, decode-encode_dentry_value d k named)),
        rw
            (
              get-set s (inode_key j) (dentry_key parent name) value ok,
              bytes_eq-tag 73 68 _ _ (λ e. absurd (omega (arith, e))),
            )
            refl,
      )

  -- Over a client that is an ordered map, an entry that was deleted with OK is not found, and every
  -- other entry is as it was; inodes are 64-bit words.
  pub lookup-delete_dentry :
      (s : c.State) (parent q : ℕ) (name n : Bytes)
      → parent < 2 ^ 64
      → q < 2 ^ 64
      → is_ok (delete_dentry c s parent name).1 ≡ true
      → lookup c (delete_dentry c s parent name).0 q n
        ≡ (if q == parent && bytes_eq n name then failed (not_found []) else lookup c s q n)
  unfolding delete_dentry lookup
  lookup-delete_dentry s parent q name n h w ok =
      rw
        (
          get-delete s (dentry_key q n) (dentry_key parent name) ok,
          bytes_eq-dentry_key q parent n name w h,
        )
        (ground arith)
