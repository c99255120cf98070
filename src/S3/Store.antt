-- ===== src/S3/Store.antt =====
-- `S3MetadataStore` of include/nebulastore/protocol/s3_metadata.h: buckets and objects as
-- entries of a backend. Each has a record, under "B:" and "O:", and an empty entry under "BL:"
-- and "OL:" for the listings.
pub mod Keys
pub mod Objects
pub mod Buckets
pub mod Listing
use nimbus_store.Base.{
  ℕ, suc, List, [], ◌∷◌, ◌++◌, Bool, false, not, ◌&&◌, ◌||◌, Option, none, some, length, drop,
  if◌then◌else◌,
}
use nimbus_store.Base.Int.{ℤ, pos, double, reached, add_u64}
use nimbus_store.Bytes.{Bytes, codes, bytes_eq, bytes_lt, starts_with}
use nimbus_store.OrderedMap.{Map}
use nimbus_store.S3.Backend.{MetadataBackend}
use nimbus_store.S3.Meta.{
  BucketMeta, ObjectMeta, empty_bucket_meta, empty_object_meta, encode_bucket, decode_bucket,
  encode_object, decode_object,
}

abbrev pub bucket_key : Bytes → Bytes
bucket_key name = codes "B:" ++ name

abbrev pub bucket_list_key : Bytes → Bytes
bucket_list_key name = codes "BL:" ++ name

abbrev pub object_key : Bytes → Bytes → Bytes
object_key bucket key = codes "O:" ++ (bucket ++ (codes "/" ++ key))

abbrev pub object_list_key : Bytes → Bytes → Bytes
object_list_key bucket key = codes "OL:" ++ (bucket ++ (codes "/" ++ key))

-- `if (!backend_->Get(key, value)) return false; return meta.Decode(value);`
abbrev pub decode_found_bucket : Option Bytes → BucketMeta → Bool × BucketMeta
decode_found_bucket none meta = (false, meta)
decode_found_bucket (some value) meta = decode_bucket value meta

abbrev pub decode_found_object : Option Bytes → ObjectMeta → Bool × ObjectMeta
decode_found_object none meta = (false, meta)
decode_found_object (some value) meta = decode_object value meta

-- `!marker.empty() && obj_key <= marker`, `!prefix.empty() && obj_key.find(prefix) != 0`
unfoldable pub passed_over : Bytes → Bytes → Bytes → Bool
passed_over prefix marker key =
    (not (bytes_eq marker []) && not (bytes_lt marker key))
    || (not (bytes_eq prefix []) && not (starts_with prefix key))

module _ (b : MetadataBackend) where
  open b use {State}

  -- A store with its result.
  unfoldable pub put_bucket : State → BucketMeta → State × Bool
  put_bucket s meta =
      b.batch_put s
        ((bucket_key meta.name, encode_bucket meta) ∷ (bucket_list_key meta.name, []) ∷ [])

  -- The argument `meta` is written by `Decode` only, also where that fails.
  unfoldable pub get_bucket : State → Bytes → BucketMeta → Bool × BucketMeta
  get_bucket s name meta = decode_found_bucket (b.get s (bucket_key name)) meta

  -- `&&`: the second delete is made only if the first succeeds
  unfoldable pub delete_both : State → Bytes → Bytes → State × Bool
  delete_both s k j = let (s', done) = b.delete s k in if done then b.delete s' j else (s', false)

  unfoldable pub delete_bucket : State → Bytes → State × Bool
  unfolding delete_both
  delete_bucket s name = delete_both s (bucket_key name) (bucket_list_key name)

  abbrev pub bucket_exists : State → Bytes → Bool
  bucket_exists s name = b.exists s (bucket_key name)

  unfoldable pub collect_buckets : State → Map → List BucketMeta
  collect_buckets s [] = []
  collect_buckets s ((key, _) ∷ kvs) =
      let (done, meta) = get_bucket s (drop 3 key) empty_bucket_meta in
      if done then meta ∷ collect_buckets s kvs else collect_buckets s kvs

  -- the default limit of `Scan`
  unfoldable pub list_buckets : State → List BucketMeta
  unfolding collect_buckets get_bucket
  list_buckets s = collect_buckets s (b.scan s (codes "BL:") (pos 1000))

  unfoldable pub put_object : State → ObjectMeta → State × Bool
  put_object s meta = b.batch_put s (
      (object_key meta.bucket meta.key, encode_object meta)
      ∷ (object_list_key meta.bucket meta.key, [])
      ∷ [])

  unfoldable pub get_object : State → Bytes → Bytes → ObjectMeta → Bool × ObjectMeta
  get_object s bucket key meta = decode_found_object (b.get s (object_key bucket key)) meta

  unfoldable pub delete_object : State → Bytes → Bytes → State × Bool
  unfolding delete_both
  delete_object s bucket key = delete_both s (object_key bucket key) (object_list_key bucket key)

  abbrev pub object_exists : State → Bytes → Bytes → Bool
  object_exists s bucket key = b.exists s (object_key bucket key)

  -- the loop of `ListObjects`; `size` is `objects.size()`
  unfoldable pub collect_objects : State → Bytes → Bytes → Bytes → ℤ → ℕ → ℕ → Map → List ObjectMeta
  collect_objects s bucket prefix marker max_keys skip size [] = []
  collect_objects s bucket prefix marker max_keys skip size ((key, _) ∷ kvs) =
      let rest = λ (n : ℕ). collect_objects s bucket prefix marker max_keys skip n kvs in
      let obj_key = drop skip key in
      let (done, meta) = get_object s bucket obj_key empty_object_meta in
      if passed_over prefix marker obj_key
      then rest size
      else if done
      then meta ∷ (if reached max_keys (suc size) then [] else rest (suc size))
      else rest size

  unfoldable pub list_objects : State → Bytes → Bytes → Bytes → ℤ → List ObjectMeta
  unfolding collect_objects get_object passed_over
  list_objects s bucket prefix marker max_keys =
      let scan_prefix = codes "OL:" ++ (bucket ++ codes "/") in
      collect_objects s bucket prefix marker max_keys (length scan_prefix) 0
        (b.scan s scan_prefix (double max_keys))

  unfoldable pub update_bucket_stats : State → Bytes → ℤ → ℤ → State × Bool
  unfolding get_bucket put_bucket
  update_bucket_stats s bucket size_delta count_delta =
      let (done, meta) = get_bucket s bucket empty_bucket_meta in
      if done
      then put_bucket s (record meta {
        total_size = add_u64 meta.total_size size_delta;
        object_count = add_u64 meta.object_count count_delta;
      })
      else (s, false)
