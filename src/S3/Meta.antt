-- ===== src/S3/Meta.antt =====
-- `BucketMeta` and `ObjectMeta` of include/nebulastore/protocol/s3_metadata.h and their
-- serialization. `Decode` writes into the object as it goes, so that a failure leaves the fields
-- that were read before it.
pub mod Decoding
pub mod Fields
pub mod BucketRoundTrip
pub mod ObjectRoundTrip
use nimbus_store.Base.{
  ℕ, zero, suc, ◌%◌, ◌^◌, [], ◌∷◌, Bool, true, false, Option, none, some, length, ltb,
}
use nimbus_store.Bytes.{Bytes}
use nimbus_store.OrderedMap.{Map, insert}
use nimbus_store.S3.Encoding.{put_u32, put_u64, put_string, get_u32, get_u64, get_string}
use Decoding.{Decoder, ◌and◌, field, check}

pub record BucketMeta : Type 0 where
  pub name : Bytes
  pub owner : Bytes
  pub creation_time : ℕ
  pub object_count : ℕ
  pub total_size : ℕ
  pub region : Bytes
  pub storage_class : Bytes

abbrev pub empty_bucket_meta : BucketMeta
empty_bucket_meta = record {
  name = [];
  owner = [];
  creation_time = 0;
  object_count = 0;
  total_size = 0;
  region = [];
  storage_class = [];
}

pub record ObjectMeta : Type 0 where
  pub bucket : Bytes
  pub key : Bytes
  pub size : ℕ
  pub etag : Bytes
  pub content_type : Bytes
  pub last_modified : ℕ
  pub storage_class : Bytes
  pub data_path : Bytes
  pub user_metadata : Map

abbrev pub empty_object_meta : ObjectMeta
empty_object_meta = record {
  bucket = [];
  key = [];
  size = 0;
  etag = [];
  content_type = [];
  last_modified = 0;
  storage_class = [];
  data_path = [];
  user_metadata = [];
}

unfoldable pub encode_bucket : BucketMeta → Bytes
encode_bucket m =
    let buf = put_u32 [] 1 in
    let buf = put_string buf m.name in
    let buf = put_string buf m.owner in
    let buf = put_u64 buf m.creation_time in
    let buf = put_u64 buf m.object_count in
    let buf = put_u64 buf m.total_size in
    let buf = put_string buf m.region in put_string buf m.storage_class

-- `!GetU32(data, pos, ver) || ver > 1` fails
unfoldable pub version {ℓ} : {M : Type ℓ} → Decoder M
unfolding check
version = check get_u32 (λ ver. ltb ver 2)

unfoldable pub decode_bucket : Bytes → BucketMeta → Bool × BucketMeta
unfolding version field ◌and◌
decode_bucket bytes meta =
    let run : Decoder BucketMeta =
      version
      and field get_string (λ s m. record m { name = s })
      and field get_string (λ s m. record m { owner = s })
      and field get_u64 (λ n m. record m { creation_time = n })
      and field get_u64 (λ n m. record m { object_count = n })
      and field get_u64 (λ n m. record m { total_size = n })
      and field get_string (λ s m. record m { region = s })
      and field get_string (λ s m. record m { storage_class = s }) in
    let (done, m, pos) = run bytes meta 0 in (done, m)

-- the loop over `user_metadata`
unfoldable pub put_entries : Bytes → Map → Bytes
put_entries buf [] = buf
put_entries buf ((k, v) ∷ m) = put_entries (put_string (put_string buf k) v) m

unfoldable pub encode_object : ObjectMeta → Bytes
unfolding put_entries
encode_object m =
    let buf = put_u32 [] 1 in
    let buf = put_string buf m.bucket in
    let buf = put_string buf m.key in
    let buf = put_u64 buf m.size in
    let buf = put_string buf m.etag in
    let buf = put_string buf m.content_type in
    let buf = put_u64 buf m.last_modified in
    let buf = put_string buf m.storage_class in
    let buf = put_string buf m.data_path in
    let buf = put_u32 buf (length m.user_metadata) in put_entries buf m.user_metadata

-- `user_metadata[k] = v`, once both are read
abbrev store_entry : Bytes → Option Bytes × ℕ → ObjectMeta → Bool × ObjectMeta × ℕ
store_entry k (none, pos) m = (false, m, pos)
store_entry k (some v, pos) m = (true, record m { user_metadata = insert k v m.user_metadata }, pos)

read_value : Bytes → Option Bytes × ℕ → ObjectMeta → Bool × ObjectMeta × ℕ
read_value bytes (none, pos) m = (false, m, pos)
read_value bytes (some k, pos) m = store_entry k (get_string bytes pos) m

-- one round of the loop of `Decode`
unfoldable pub read_entry : Decoder ObjectMeta
unfolding read_value
read_entry bytes m pos = read_value bytes (get_string bytes pos) m

unfoldable pub read_entries : ℕ → Decoder ObjectMeta
read_entries zero bytes m pos = (true, m, pos)
read_entries (suc count) bytes m pos =
    let (done, m', pos') = read_entry bytes m pos in
    elim done [ true ↦ read_entries count bytes m' pos' | false ↦ (false, m', pos') ]

-- `GetU32(count)`, `clear`, and the loop
read_counted : Bytes → Option ℕ × ℕ → ObjectMeta → Bool × ObjectMeta × ℕ
unfolding read_entries read_entry
read_counted bytes (none, pos) m = (false, m, pos)
read_counted bytes (some count, pos) m =
    read_entries count bytes (record m { user_metadata = [] }) pos

unfoldable pub read_user_metadata : Decoder ObjectMeta
unfolding read_counted
read_user_metadata bytes m pos = read_counted bytes (get_u32 bytes pos) m

unfoldable pub decode_object : Bytes → ObjectMeta → Bool × ObjectMeta
unfolding version field ◌and◌ read_user_metadata
decode_object bytes meta =
    let run : Decoder ObjectMeta =
      version
      and field get_string (λ s m. record m { bucket = s })
      and field get_string (λ s m. record m { key = s })
      and field get_u64 (λ n m. record m { size = n })
      and field get_string (λ s m. record m { etag = s })
      and field get_string (λ s m. record m { content_type = s })
      and field get_u64 (λ n m. record m { last_modified = n })
      and field get_string (λ s m. record m { storage_class = s })
      and field get_string (λ s m. record m { data_path = s })
      and read_user_metadata in
    let (done, m, pos) = run bytes meta 0 in (done, m)
