-- ===== src/Metadata/RocksdbStore/Values.antt =====
-- The keys and the values of src/metadata/rocksdb_store.cpp. `past` is what an `int` shifted by 32
-- or more gives, which the language leaves undefined.
use nimbus_store.Base.{
  ℕ, zero, suc, ◌%◌, ◌^◌, List, [], ◌∷◌, ◌++◌, ltb, leb, if◌then◌else◌, take, drop, length,
}
use nimbus_store.Bytes.{Bytes}
use nimbus_store.Bytes.Words.{le_bytes}
use nimbus_store.SliceTree.{SliceInfo}
use nimbus_store.Metadata.Types.{InodeAttr, Dentry, type_code, type_of_code}
use nimbus_store.Metadata.Service.{FileLayout}
use nimbus_store.Metadata.RocksdbStore.Words.{read_parts, char_part, word_part, int_part}

-- "D", the parent, "/" and the name
abbrev pub dentry_prefix : ℕ → Bytes
dentry_prefix parent = 68 ∷ (le_bytes 8 parent ++ 47 ∷ [])

unfoldable pub encode_dentry_key : ℕ → Bytes → Bytes
encode_dentry_key parent name = (68 ∷ (le_bytes 8 parent ++ 47 ∷ [])) ++ name

unfoldable pub encode_inode_key : ℕ → Bytes
encode_inode_key inode = 73 ∷ le_bytes 8 inode

unfoldable pub encode_layout_key : ℕ → Bytes
encode_layout_key inode = 76 ∷ le_bytes 8 inode

unfoldable pub encode_dentry_value : Dentry → Bytes
unfolding le_bytes
encode_dentry_value d = le_bytes 8 d.inode_id ++ le_bytes 4 (type_code d.type)

-- the loops over eight characters, over four bytes into 32 bits, and over eight bytes into 64
abbrev pub chars_at : Bytes → ℕ → ℕ
chars_at value pos = read_parts char_part 64 0 0 (take 8 (drop pos value))

abbrev pub word_at : Bytes → ℕ → ℕ
word_at value pos = read_parts word_part 32 0 0 (take 4 (drop pos value))

abbrev pub ints_at : (ℕ → ℕ → ℕ) → Bytes → ℕ → ℕ
ints_at past value pos = read_parts (int_part past) 64 0 0 (take 8 (drop pos value))

-- `unset` is a `Dentry` without initial values, which a value that is too short leaves.
unfoldable pub decode_dentry_value : (ℕ → ℕ → ℕ) → Dentry → Bytes → Dentry
unfolding read_parts
decode_dentry_value past unset value = if ltb (length value) 12 then unset else record {
  name = [];
  inode_id = ints_at past value 0;
  type = type_of_code (word_at value 8);
}

unfoldable pub encode_inode_value : InodeAttr → Bytes
unfolding le_bytes
encode_inode_value a =
    le_bytes 8 a.inode_id
    ++ (le_bytes 4 a.mode.mode
        ++ (le_bytes 4 a.uid
            ++ (le_bytes 4 a.gid
                ++ (le_bytes 8 a.size
                    ++ (le_bytes 8 a.mtime ++ (le_bytes 8 a.ctime ++ le_bytes 8 a.nlink))))))

abbrev no_attr : InodeAttr
no_attr = record {
  inode_id = 0;
  mode = record { mode = 0 };
  uid = 0;
  gid = 0;
  size = 0;
  mtime = 0;
  ctime = 0;
  nlink = 0;
}

unfoldable pub decode_inode_value : (ℕ → ℕ → ℕ) → Bytes → InodeAttr
unfolding read_parts
decode_inode_value past value = if ltb (length value) 52 then no_attr else record {
  inode_id = ints_at past value 0;
  mode = record { mode = word_at value 8 };
  uid = word_at value 12;
  gid = word_at value 16;
  size = chars_at value 20;
  mtime = chars_at value 28;
  ctime = chars_at value 36;
  nlink = chars_at value 44;
}

abbrev pub encode_slice : SliceInfo → Bytes
encode_slice s =
    le_bytes 8 s.slice_id
    ++ (le_bytes 8 s.offset
        ++ (le_bytes 8 s.size ++ (le_bytes 4 (length s.storage_key % 2 ^ 32) ++ s.storage_key)))

unfoldable pub encode_slices : List SliceInfo → Bytes
unfolding le_bytes
encode_slices [] = []
encode_slices (s ∷ slices) = encode_slice s ++ encode_slices slices

unfoldable pub encode_layout_value : FileLayout → Bytes
unfolding le_bytes encode_slices
encode_layout_value layout =
    le_bytes 8 layout.chunk_size
    ++ (le_bytes 4 (length layout.slices % 2 ^ 32) ++ encode_slices layout.slices)

abbrev pub slice_at : Bytes → SliceInfo
slice_at rest = record {
  slice_id = chars_at rest 0;
  offset = chars_at rest 8;
  size = chars_at rest 16;
  storage_key = take (word_at rest 24) (drop 28 rest);
}

-- the loop over the slices, from what is left of the value
unfoldable pub decode_slices : ℕ → Bytes → List SliceInfo
unfolding read_parts
decode_slices zero rest = []
decode_slices (suc count) rest =
    let more = decode_slices count (drop (word_at rest 24) (drop 28 rest)) in
    if leb 28 (length rest)
    then (if leb (word_at rest 24) (length (drop 28 rest)) then slice_at rest ∷ more else [])
    else []

-- The inode is not part of the value.
unfoldable pub decode_layout_value : Bytes → FileLayout
unfolding decode_slices read_parts
decode_layout_value value =
    if ltb (length value) 12 then record { inode_id = 0; chunk_size = 0; slices = [] } else record {
      inode_id = 0;
      chunk_size = chars_at value 0;
      slices = decode_slices (word_at value 8) (drop 12 value);
    }
