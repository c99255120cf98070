-- ===== src/Engine/Codec.antt =====
-- The keys and values of `KVMetaEngine`, include/nebulastore/metadata/meta_engine.h: words of eight
-- bytes, most significant first. A value that is read has no result where a read leaves it: it has
-- a zero behind its end (`operator[]` at the size), and nothing more; `substr` throws there.
pub mod RoundTrip
use nimbus_store.Base.{
  ℕ, ◌+◌, ◌%◌, ◌^◌, List, [], ◌∷◌, ◌++◌, Option, none, some, length, take, drop, leb, if◌then◌else◌,
}
use nimbus_store.Base.Options.{◌>>=◌}
use nimbus_store.Bytes.{Bytes, codes}
use nimbus_store.Bytes.Words.{be_bytes, of_be}
use nimbus_store.SliceTree.{SliceInfo}
use nimbus_store.Metadata.Types.{FileMode, InodeAttr, Dentry, type_code, type_of_code}

abbrev pub encode_u64 : ℕ → Bytes
encode_u64 v = be_bytes 8 v

unfoldable pub decode_u64 : Bytes → ℕ → Option ℕ
decode_u64 s off =
    if leb (off + 8) (length s + 1) then some (of_be 0 (take 8 (drop off (s ++ 0 ∷ [])))) else none

abbrev pub inode_key : ℕ → Bytes
inode_key inode = codes "I" ++ encode_u64 inode

abbrev pub dentry_key : ℕ → Bytes → Bytes
dentry_key parent name = codes "D" ++ (encode_u64 parent ++ name)

abbrev pub slice_key : ℕ → ℕ → Bytes
slice_key inode offset = codes "S" ++ (encode_u64 inode ++ encode_u64 offset)

unfoldable pub encode_inode_value : InodeAttr → Bytes
encode_inode_value a =
    let s = encode_u64 a.inode_id in
    let s = s ++ encode_u64 a.mode.mode in
    let s = s ++ encode_u64 a.uid in
    let s = s ++ encode_u64 a.gid in
    let s = s ++ encode_u64 a.size in
    let s = s ++ encode_u64 a.mtime in let s = s ++ encode_u64 a.ctime in s ++ encode_u64 a.nlink

unfoldable pub decode_inode_value : Bytes → Option InodeAttr
unfolding decode_u64
decode_inode_value s = do
  inode_id ← decode_u64 s 0
  mode ← decode_u64 s 8
  uid ← decode_u64 s 16
  gid ← decode_u64 s 24
  size ← decode_u64 s 32
  mtime ← decode_u64 s 40
  ctime ← decode_u64 s 48
  nlink ← decode_u64 s 56
  some (record {
    inode_id = inode_id;
    mode = record { mode = mode % 2 ^ 32 };
    uid = uid % 2 ^ 32;
    gid = gid % 2 ^ 32;
    size = size;
    mtime = mtime;
    ctime = ctime;
    nlink = nlink;
  })

unfoldable pub encode_dentry_value : Dentry → Bytes
encode_dentry_value d = encode_u64 d.inode_id ++ encode_u64 (type_code d.type)

-- The name is empty here; the callers write it.
unfoldable pub decode_dentry_value : Bytes → Option Dentry
unfolding decode_u64
decode_dentry_value s = do
  inode_id ← decode_u64 s 0
  type ← decode_u64 s 8
  some (record { name = []; inode_id = inode_id; type = type_of_code (type % 2 ^ 32) })

unfoldable pub encode_slice_value : SliceInfo → Bytes
encode_slice_value sl =
    let s = encode_u64 sl.slice_id in
    let s = s ++ encode_u64 sl.offset in
    let s = s ++ encode_u64 sl.size in
    let s = s ++ encode_u64 (length sl.storage_key) in s ++ sl.storage_key

-- `substr(pos, len)`
abbrev pub substr : Bytes → ℕ → ℕ → Option Bytes
substr s pos len = if leb pos (length s) then some (take len (drop pos s)) else none

unfoldable pub decode_slice_value : Bytes → Option SliceInfo
unfolding decode_u64
decode_slice_value s = do
  slice_id ← decode_u64 s 0
  offset ← decode_u64 s 8
  size ← decode_u64 s 16
  len ← decode_u64 s 24
  storage_key ← substr s 32 len
  some (record { slice_id = slice_id; offset = offset; size = size; storage_key = storage_key })
