-- ===== src/S3/Store/Buckets.antt =====
-- Buckets: what is read after a write, over any backend that is an ordered map.
use nimbus_store.Base.{
  [], ◌∷◌, true, false, Option, none, some, ◌≡◌, refl, ap, sym, ◌∙◌, append-nil, if◌then◌else◌,
  Bool-cases, inl, inr,
}
use nimbus_store.Base.Int.{ℤ, add_u64, add_u64-lt}
use nimbus_store.Bytes.{Bytes, bytes_eq}
use nimbus_store.Bytes.Order.{bytes_eq_refl}
use nimbus_store.OrderedMap.{Map, find}
use nimbus_store.S3.Backend.{MetadataBackend}
use nimbus_store.S3.Backend.Laws.{IsOrderedBackend}
use nimbus_store.S3.Meta.{
  BucketMeta, ObjectMeta, encode_bucket, decode_bucket, empty_bucket_meta, encode_object,
}
use nimbus_store.S3.Meta.BucketRoundTrip.{BucketFits, decode-encode_bucket}
use nimbus_store.S3.Store.{
  bucket_key, bucket_list_key, object_key, object_list_key, put_bucket, get_bucket, delete_bucket,
  bucket_exists, decode_found_bucket, update_bucket_stats, put_object, get_object,
}
use nimbus_store.S3.Store.Keys.{
  bucket_key-ne-list_key, bucket_key-ne-object_key, bucket_key-ne-object_list_key,
  object_key-ne-bucket_key, object_key-ne-bucket_list_key,
}
use nimbus_store.S3.Store.Objects.{find-insert_pair, find-delete_both, get_object-entries}

module _ (b : MetadataBackend) (o : IsOrderedBackend b) where
  open o use {entries}

  get_bucket-entries :
      (s : b.State) (name : Bytes) (old : BucketMeta)
      → get_bucket b s name old ≡ decode_found_bucket (find (bucket_key name) (entries s)) old
  unfolding get_bucket
  get_bucket-entries s name old =
      ap (λ (v : Option Bytes). decode_found_bucket v old) (o.get_entries s (bucket_key name))

  find-put_bucket :
      (s : b.State) (m : BucketMeta) (name : Bytes)
      → (put_bucket b s m).1 ≡ true
      → find (bucket_key name) (entries (put_bucket b s m).0) ≡ (
          if bytes_eq (bucket_key name) (bucket_key m.name)
          then some (encode_bucket m)
          else find (bucket_key name) (entries s))
  unfolding put_bucket
  find-put_bucket s m name done =
      let kvs : Map = (bucket_key m.name, encode_bucket m) ∷ (bucket_list_key m.name, []) ∷ [] in
      rw (o.batch_done s kvs done)
        (find-insert_pair _ _ _ _ _ _ ∙ rw (bucket_key-ne-list_key name m.name))

  -- After a successful `PutBucket`, the bucket exists and `GetBucket` succeeds with exactly the
  -- metadata that was put, if its lengths and numbers fit.
  pub get-put_bucket :
      (s : b.State) (m old : BucketMeta)
      → BucketFits m
      → (put_bucket b s m).1 ≡ true
      → (bucket_exists b (put_bucket b s m).0 m.name ≡ true)
        × (get_bucket b (put_bucket b s m).0 m.name old ≡ (true, m))
  get-put_bucket s m old fits done =
      let there : find (bucket_key m.name) (entries (put_bucket b s m).0) ≡ some (encode_bucket m) =
        find-put_bucket s m m.name done ∙ rw bytes_eq_refl in
      (
        o.exists_entries _ _ ∙ rw there,
        get_bucket-entries _ m.name old
            ∙ rw there (
                ap (λ (v : Bytes). decode_bucket v old) (sym (append-nil (encode_bucket m)))
                ∙ decode-encode_bucket m old [] fits),
      )

  -- A `PutBucket`, successful or not, does not change what `GetObject` returns.
  pub get_object-put_bucket :
      (s : b.State) (m : BucketMeta) (bucket key : Bytes) (old : ObjectMeta)
      → get_object b (put_bucket b s m).0 bucket key old ≡ get_object b s bucket key old
  unfolding put_bucket
  get_object-put_bucket s m bucket key old =
      let kvs : Map = (bucket_key m.name, encode_bucket m) ∷ (bucket_list_key m.name, []) ∷ [] in
      let same : find (object_key bucket key) (entries (b.batch_put s kvs).0)
          ≡ find (object_key bucket key) (entries s) =
        elim (Bool-cases (b.batch_put s kvs).1) [
          | inl done ↦
              ap (find (object_key bucket key)) (o.batch_done s kvs done)
              ∙ find-insert_pair _ _ _ _ _ _
              ∙ rw (
                object_key-ne-bucket_list_key m.name bucket key,
                object_key-ne-bucket_key m.name bucket key,
              )
          | inr failed ↦ ap (find (object_key bucket key)) (o.batch_failed s kvs failed)
        ] in
      get_object-entries b o _ bucket key old
      ∙ rw same (sym (get_object-entries b o s bucket key old))

  -- A `PutObject`, successful or not, does not change what `GetBucket` returns.
  pub get_bucket-put_object :
      (s : b.State) (m : ObjectMeta) (name : Bytes) (old : BucketMeta)
      → get_bucket b (put_object b s m).0 name old ≡ get_bucket b s name old
  unfolding put_object
  get_bucket-put_object s m name old =
      let kvs : Map =
        (object_key m.bucket m.key, encode_object m) ∷ (object_list_key m.bucket m.key, []) ∷ [] in
      let same : find (bucket_key name) (entries (b.batch_put s kvs).0)
          ≡ find (bucket_key name) (entries s) =
        elim (Bool-cases (b.batch_put s kvs).1) [
          | inl done ↦
              ap (find (bucket_key name)) (o.batch_done s kvs done)
              ∙ find-insert_pair _ _ _ _ _ _
              ∙ rw (
                bucket_key-ne-object_list_key name m.bucket m.key,
                bucket_key-ne-object_key name m.bucket m.key,
              )
          | inr failed ↦ ap (find (bucket_key name)) (o.batch_failed s kvs failed)
        ] in
      get_bucket-entries _ name old ∙ rw same (sym (get_bucket-entries s name old))

  -- After a successful `DeleteBucket` the bucket does not exist and `GetBucket` fails.
  pub get-delete_bucket :
      (s : b.State) (name : Bytes) (old : BucketMeta)
      → (delete_bucket b s name).1 ≡ true
      → (bucket_exists b (delete_bucket b s name).0 name ≡ false)
        × (get_bucket b (delete_bucket b s name).0 name old ≡ (false, old))
  unfolding delete_bucket
  get-delete_bucket s name old done =
      let gone : find (bucket_key name) (entries (delete_bucket b s name).0) ≡ none =
        find-delete_both b o s _ _ _ done ∙ rw (bucket_key-ne-list_key, bytes_eq_refl) in
      (o.exists_entries _ _ ∙ rw gone, get_bucket-entries _ name old ∙ rw gone)

  -- Over a metadata backend that is an ordered map, let a bucket's record be found under the name
  -- that stands in it, with lengths and numbers that fit their fields, and let `UpdateBucketStats`
  -- of that name succeed. Then the record has the two counts changed by the differences, modulo
  -- 2^64, and all else as it was.
  pub get-update_bucket_stats :
      (s : b.State) (name : Bytes) (size_delta count_delta : ℤ) (m old : BucketMeta)
      → get_bucket b s name empty_bucket_meta ≡ (true, m)
      → m.name ≡ name
      → BucketFits m
      → (update_bucket_stats b s name size_delta count_delta).1 ≡ true
      → get_bucket b (update_bucket_stats b s name size_delta count_delta).0 name old ≡ (
        true,
        record m {
          total_size = add_u64 m.total_size size_delta;
          object_count = add_u64 m.object_count count_delta;
        },
      )
  unfolding update_bucket_stats
  get-update_bucket_stats s name size_delta count_delta m old read same fits done =
      let m' : BucketMeta = record m {
        total_size = add_u64 m.total_size size_delta;
        object_count = add_u64 m.object_count count_delta;
      } in
      let fits' : BucketFits m' = record {
        name = fits.name;
        owner = fits.owner;
        creation_time = fits.creation_time;
        object_count = add_u64-lt m.object_count count_delta;
        total_size = add_u64-lt m.total_size size_delta;
        region = fits.region;
        storage_class = fits.storage_class;
      } in
      let put_done = rw read at done in
      rw read (
        ap (λ (n : Bytes). get_bucket b (put_bucket b s m').0 n old) (sym same)
        ∙ (get-put_bucket s m' old fits' put_done).1)

  -- `UpdateBucketStats`, successful or not, does not change what `GetObject` returns.
  pub get_object-update_bucket_stats :
      (s : b.State) (name : Bytes) (size_delta count_delta : ℤ) (bucket key : Bytes)
      (old : ObjectMeta)
      → get_object b (update_bucket_stats b s name size_delta count_delta).0 bucket key old
        ≡ get_object b s bucket key old
  unfolding update_bucket_stats
  get_object-update_bucket_stats s name size_delta count_delta bucket key old =
      elim (Bool-cases (get_bucket b s name empty_bucket_meta).0) [
        | inl done ↦ rw done (get_object-put_bucket s _ bucket key old)
        | inr failed ↦ rw failed refl
      ]
