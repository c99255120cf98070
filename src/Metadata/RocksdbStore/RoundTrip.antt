-- ===== src/Metadata/RocksdbStore/RoundTrip.antt =====
-- What the codec of src/metadata/rocksdb_store.cpp gives back.
use nimbus_store.Base.{
  map, length-append, take-append, drop-append, ℕ, ◌%◌, ◌^◌, ◌<◌, List, [], ◌∷◌, true, false, ltb,
  leb, drop, length, All, ◌≡◌, refl, arith,
}
use nimbus_store.Bytes.Words.{le_bytes}
use nimbus_store.SliceTree.{SliceInfo}
use nimbus_store.Metadata.Types.{
  InodeAttr, Dentry, type_code, IsNamed, type_code-lt, type_of_code-type_code,
}
use nimbus_store.Metadata.Service.{FileLayout}
use nimbus_store.Metadata.RocksdbStore.Words.{read_parts, char_part}
use nimbus_store.Metadata.RocksdbStore.Shifts.{read_word, read_char_word}
use nimbus_store.Metadata.RocksdbStore.IntWords.{read_int_word}
use nimbus_store.Metadata.RocksdbStore.Values.{
  encode_dentry_value, decode_dentry_value, encode_inode_value, decode_inode_value, encode_slices,
  decode_slices, encode_layout_value, decode_layout_value,
}

-- what is read of a word of 64 bits through its characters
abbrev pub chars_of : ℕ → ℕ
chars_of v = read_parts char_part 64 0 0 (le_bytes 8 v)

pub chars_of-zero : chars_of 0 ≡ 0
unfolding le_bytes
chars_of-zero = read_char_word 0 (omega arith) (
  omega arith,
  (
    omega arith,
    (omega arith, (omega arith, (omega arith, (omega arith, (omega arith, (omega arith, tt)))))),
  ),
)

pub chars_of-one : chars_of 1 ≡ 1
unfolding le_bytes
chars_of-one = read_char_word 1 (omega arith) (
  omega arith,
  (
    omega arith,
    (omega arith, (omega arith, (omega arith, (omega arith, (omega arith, (omega arith, tt)))))),
  ),
)

module _ (past : ℕ → ℕ → ℕ) (zero_shift : (i : ℕ) → past i 0 ≡ 0) where
  pub decode-encode_dentry_value :
      (unset d : Dentry)
      → d.inode_id < 2 ^ 31
      → IsNamed d.type
      → decode_dentry_value past unset (encode_dentry_value d) ≡ record d { name = [] }
  unfolding decode_dentry_value encode_dentry_value le_bytes
  decode-encode_dentry_value unset d h named =
      rw
        (
          read_int_word past d.inode_id h zero_shift,
          read_word (type_code d.type) (type_code-lt d.type named),
          type_of_code-type_code d.type named,
        )
        refl

  -- The size and the times go through characters.
  pub decode-encode_inode_value :
      (a : InodeAttr)
      → a.inode_id < 2 ^ 31
      → a.mode.mode < 2 ^ 32
      → a.uid < 2 ^ 32
      → a.gid < 2 ^ 32
      → decode_inode_value past (encode_inode_value a) ≡ record a {
        size = chars_of a.size;
        mtime = chars_of a.mtime;
        ctime = chars_of a.ctime;
        nlink = chars_of a.nlink;
      }
  unfolding decode_inode_value encode_inode_value le_bytes
  decode-encode_inode_value a h m u g =
      rw
        (
          read_int_word past a.inode_id h zero_shift,
          read_word a.mode.mode m,
          read_word a.uid u,
          read_word a.gid g,
        )
        refl

abbrev pub stored_slice : SliceInfo → SliceInfo
stored_slice s = record s {
  slice_id = chars_of s.slice_id;
  offset = chars_of s.offset;
  size = chars_of s.size;
}

decode_slices-encode_slices :
    (slices : List SliceInfo)
    → All (λ s. length s.storage_key < 2 ^ 32) slices
    → decode_slices (length slices) (encode_slices slices) ≡ map stored_slice slices
unfolding decode_slices encode_slices le_bytes
decode_slices-encode_slices [] h = refl
decode_slices-encode_slices (s ∷ slices) h =
    let n : length s.storage_key % 2 ^ 32 ≡ length s.storage_key = omega (arith, h.0) in
    let tail = encode_slices slices in
    let size = length-append s.storage_key tail in
    let a : leb 28 (length (encode_slices (s ∷ slices))) ≡ true = ground arith in
    let b : leb (length s.storage_key) (length (drop 28 (encode_slices (s ∷ slices)))) ≡ true =
      ground (arith, size) in
    rw
      (
        n,
        read_word (length s.storage_key) h.0,
        a,
        b,
        take-append s.storage_key tail,
        drop-append s.storage_key tail,
        decode_slices-encode_slices slices h.1,
      )
      refl

pub decode-encode_layout_value :
    (layout : FileLayout)
    → length layout.slices < 2 ^ 32
    → All (λ s. length s.storage_key < 2 ^ 32) layout.slices
    → decode_layout_value (encode_layout_value layout) ≡ record {
      inode_id = 0;
      chunk_size = chars_of layout.chunk_size;
      slices = map stored_slice layout.slices;
    }
unfolding decode_layout_value encode_layout_value le_bytes
decode-encode_layout_value layout h k =
    let n : length layout.slices % 2 ^ 32 ≡ length layout.slices = omega (arith, h) in
    let a : ltb (length (encode_layout_value layout)) 12 ≡ false = ground arith in
    rw (n, read_word (length layout.slices) h, decode_slices-encode_slices layout.slices k, a) refl
