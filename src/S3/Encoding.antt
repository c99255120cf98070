-- ===== src/S3/Encoding.antt =====
-- `namespace encoding` of include/nebulastore/protocol/s3_metadata.h: a value is appended to a
-- buffer, and read from a string at a position that moves on. `memcpy` of a word is taken on a
-- little-endian machine. Lengths are below 2^64, so `pos + len` does not wrap.
pub mod Reads
use nimbus_store.Base.{
  ℕ, ◌+◌, ◌%◌, ◌^◌, ◌++◌, Bool, true, false, Option, none, some, length, take, drop, ltb,
  if◌then◌else◌, ◌≡◌,
}
use nimbus_store.Bytes.{Bytes}
use nimbus_store.Bytes.Words.{le_bytes, of_le}

-- The argument of `PutU32` is a `uint32_t`: a `size_t` is cut to 32 bits on the way.
unfoldable pub put_u32 : Bytes → ℕ → Bytes
put_u32 buf v = buf ++ le_bytes 4 (v % 2 ^ 32)

unfoldable pub put_u64 : Bytes → ℕ → Bytes
put_u64 buf v = buf ++ le_bytes 8 (v % 2 ^ 64)

unfoldable pub put_string : Bytes → Bytes → Bytes
unfolding put_u32
put_string buf s = put_u32 buf (length s) ++ s

-- The value that is read, if any, and the position afterwards.
unfoldable pub get_u32 : Bytes → ℕ → Option ℕ × ℕ
get_u32 bytes pos =
    if ltb (length bytes) (pos + 4)
    then (none, pos)
    else (some (of_le (take 4 (drop pos bytes))), pos + 4)

unfoldable pub get_u64 : Bytes → ℕ → Option ℕ × ℕ
get_u64 bytes pos =
    if ltb (length bytes) (pos + 8)
    then (none, pos)
    else (some (of_le (take 8 (drop pos bytes))), pos + 8)

-- the second half of `GetString`, with the length that was read
get_chars : Bytes → Option ℕ × ℕ → Option Bytes × ℕ
get_chars bytes (none, pos) = (none, pos)
get_chars bytes (some len, pos) =
    if ltb (length bytes) (pos + len)
    then (none, pos)
    else (some (take len (drop pos bytes)), pos + len)

unfoldable pub get_string : Bytes → ℕ → Option Bytes × ℕ
unfolding get_chars get_u32
get_string bytes pos = get_chars bytes (get_u32 bytes pos)
