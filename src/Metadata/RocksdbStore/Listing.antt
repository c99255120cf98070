-- ===== src/Metadata/RocksdbStore/Listing.antt =====
-- `ListDentries` of src/metadata/rocksdb_store.cpp: the keys with the prefix of a directory are its
-- entries.
use nimbus_store.Base.{
  ℕ, ◌^◌, ◌<◌, List, [], ◌∷◌, false, ◌==◌, map, keep, Bool-cases, inl, inr, All, drop, length, ◌≡◌,
  refl, ap, if◌then◌else◌,
}
use nimbus_store.Bytes.{Bytes, starts_with}
use nimbus_store.OrderedMap.{Map, seek_from}
use nimbus_store.OrderedMap.Prefix.{while_prefix, while_prefix-seek_from}
use nimbus_store.Rocksdb.{Rocksdb, IsOrderedStore}
use nimbus_store.Metadata.Types.{done, InodeAttr, Dentry, IsNamed}
use nimbus_store.Metadata.Service.{FileLayout}
use nimbus_store.Metadata.RocksdbStore.Values.{
  dentry_prefix, encode_dentry_key, encode_inode_key, encode_layout_key, encode_dentry_value,
  encode_inode_value, encode_layout_value, decode_dentry_value,
}
use nimbus_store.Metadata.RocksdbStore.Keys.{starts_with-encode_dentry_key, drop-encode_dentry_key}
use nimbus_store.Metadata.RocksdbStore.RoundTrip.{decode-encode_dentry_value}
use nimbus_store.Metadata.RocksdbStore.Operations.{read_dentries, list_dentries}

-- what the store writes: the attributes of an inode, an entry of a directory, a layout
pub data Entry : Type 0 where
  attributes : ℕ → InodeAttr → Entry
  child : ℕ → Dentry → Entry
  placed : ℕ → FileLayout → Entry

abbrev pub entry_bytes : Entry → Bytes × Bytes
entry_bytes (attributes inode a) = (encode_inode_key inode, encode_inode_value a)
entry_bytes (child parent d) = (encode_dentry_key parent d.name, encode_dentry_value d)
entry_bytes (placed inode layout) = (encode_layout_key inode, encode_layout_value layout)

-- The entries of directories have a parent below 2^64, an inode below 2^31 and a named type.
abbrev pub Fits : Entry → Type 0
Fits (attributes inode a) = Unit
Fits (child parent d) = (parent < 2 ^ 64) × (d.inode_id < 2 ^ 31) × IsNamed d.type
Fits (placed inode layout) = Unit

-- the entries of one directory, in the order of the keys
abbrev pub children : ℕ → List Entry → List Dentry
children parent [] = []
children parent (attributes inode a ∷ xs) = children parent xs
children parent (child q d ∷ xs) =
    if q == parent then d ∷ children parent xs else children parent xs
children parent (placed inode layout ∷ xs) = children parent xs

no_inode_key :
    (parent inode : ℕ) → starts_with (dentry_prefix parent) (encode_inode_key inode) ≡ false
unfolding encode_inode_key starts_with
no_inode_key parent inode = refl

no_layout_key :
    (parent inode : ℕ) → starts_with (dentry_prefix parent) (encode_layout_key inode) ≡ false
unfolding encode_layout_key starts_with
no_layout_key parent inode = refl

module _ (r : Rocksdb) (past : ℕ → ℕ → ℕ) (zero_shift : (i : ℕ) → past i 0 ≡ 0) (unset : Dentry)
    (to_string : ℕ → Bytes) where
  abbrev dentry_at : Bytes → Bytes × Bytes → Dentry
  dentry_at prefix e = record (decode_dentry_value past unset e.1) {
    name = drop (length prefix) e.0;
  }

  read_dentries-while_prefix :
      (prefix : Bytes) (m : Map)
      → read_dentries r past unset to_string prefix m
        ≡ map (dentry_at prefix) (while_prefix prefix m)
  unfolding read_dentries while_prefix
  read_dentries-while_prefix prefix [] = refl
  read_dentries-while_prefix prefix ((k, v) ∷ m) = elim (Bool-cases (starts_with prefix k)) [
    | inl e ↦ rw (e, read_dentries-while_prefix prefix m) refl
    | inr e ↦ rw e refl
  ]

  keep-children :
      (parent : ℕ) (xs : List Entry)
      → parent < 2 ^ 64
      → All Fits xs
      → map
          (dentry_at (dentry_prefix parent))
          (keep (λ e. starts_with (dentry_prefix parent) e.0) (map entry_bytes xs))
        ≡ children parent xs
  keep-children parent [] h fit = refl
  keep-children parent (attributes inode a ∷ xs) h fit =
      rw (no_inode_key parent inode) (keep-children parent xs h fit.1)
  keep-children parent (child q d ∷ xs) h fit =
      rw (starts_with-encode_dentry_key parent q d.name h fit.0.0)
        (elim (Bool-cases (q == parent)) [
          | inl e ↦
              rw
                (
                  e,
                  drop-encode_dentry_key parent q d.name,
                  decode-encode_dentry_value past zero_shift unset d fit.0.1 fit.0.2,
                  keep-children parent xs h fit.1,
                )
                refl
          | inr e ↦ rw e (keep-children parent xs h fit.1)
        ])
  keep-children parent (placed inode layout ∷ xs) h fit =
      rw (no_layout_key parent inode) (keep-children parent xs h fit.1)

  -- Over a RocksDB database whose reads do not fail, holding nothing but encoded attributes,
  -- directory entries and layouts, where the entries have parents below 2^64, inodes below 2^31 and
  -- named types, `ListDentries` of a parent below 2^64 returns its entries, all of them and no other,
  -- in the order of the database; an undefined shift of 0 gives 0.
  pub list_dentries-children :
      (o : IsOrderedStore r) (s : r.Db) (parent : ℕ) (xs : List Entry)
      → o.entries s ≡ map entry_bytes xs
      → parent < 2 ^ 64
      → All Fits xs
      → list_dentries r past unset to_string s parent ≡ done (children parent xs)
  unfolding list_dentries
  list_dentries-children o s parent xs holds h fit =
      rw
        (
          o.seek_entries s (dentry_prefix parent),
          read_dentries-while_prefix (dentry_prefix parent)
              (seek_from (dentry_prefix parent) (o.entries s)),
          while_prefix-seek_from (dentry_prefix parent) (o.entries s) (o.sorted s),
          holds,
        )
        (ap done (keep-children parent xs h fit))
