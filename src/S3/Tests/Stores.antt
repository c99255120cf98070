-- ===== src/S3/Tests/Stores.antt =====
-- The store at concrete states.
use nimbus_store.Base.{ℕ, [], ◌∷◌, ◌++◌, true, false, ap, ◌≡◌, ◌⊎◌, refl, arith, take, keep}
use nimbus_store.Base.Int.{pos, negsuc, add_u64}
use nimbus_store.Bytes.{Bytes, codes, starts_with}
use nimbus_store.OrderedMap.{erase, seek_from}
use nimbus_store.Rocksdb.InMemory.{write_memory, memory-IsOrderedStore}
use nimbus_store.S3.Backend.Laws.{rocksdb_backend-IsOrderedBackend}
use nimbus_store.S3.Backend.{scan_loop}
use nimbus_store.S3.Meta.{
  BucketMeta, empty_bucket_meta, empty_object_meta, encode_bucket, decode_bucket,
}
use nimbus_store.S3.Meta.BucketRoundTrip.{BucketFits, decode-encode_bucket}
use nimbus_store.S3.Store.{
  object_key, put_object, get_object, delete_object, put_bucket, get_bucket, list_objects,
  update_bucket_stats, object_exists,
}
use nimbus_store.S3.Store.Objects.{
  get-put_object, get-put_object_ne, get-delete_object, delete_object_failed,
}
use nimbus_store.S3.Store.Buckets.{get-update_bucket_stats}
use nimbus_store.S3.Store.Listing.{list_objects_lem, list_objects_starves, select, scan_prefix}
use nimbus_store.S3.Tests.{program, backend, backend_laws, meta, meta_fits, start}

abbrev bucket : BucketMeta
bucket = record {
  name = codes "b";
  owner = codes "owner";
  creation_time = 7;
  object_count = 3;
  total_size = 100;
  region = codes "default";
  storage_class = codes "STANDARD";
}

bucket_fits : BucketFits bucket
bucket_fits = record {
  name = omega arith;
  owner = omega arith;
  creation_time = omega arith;
  object_count = omega arith;
  total_size = omega arith;
  region = omega arith;
  storage_class = omega arith;
}

abbrev first_of : Bytes → ℕ
first_of [] = 0
first_of (c ∷ s) = c

-- A database with the bucket and one object, and the same without room for a write.
abbrev filled : backend.State
filled = (put_object backend (put_bucket backend start.store bucket).0 meta).0

other_key : codes "j" ≡ codes "k" → ⊥
other_key e = absurd (omega (arith, ap (λ (s : Bytes). first_of s) e))

abbrev full : backend.State
full = record start.store { room = 0 }

get-put_object_example :
    get_object backend
      (put_object backend start.store meta).0
      (codes "b")
      (codes "k")
      empty_object_meta
    ≡ (true, meta)
unfolding put_object write_memory
get-put_object_example =
    get-put_object backend backend_laws start.store meta empty_object_meta meta_fits refl

delete_object_failed_example :
    (backend_laws.entries (delete_object backend full (codes "b") (codes "k")).0
      ≡ backend_laws.entries full)
    ⊎ (backend_laws.entries (delete_object backend full (codes "b") (codes "k")).0
        ≡ erase (object_key (codes "b") (codes "k")) (backend_laws.entries full))
unfolding program
delete_object_failed_example =
    delete_object_failed backend backend_laws full (codes "b") (codes "k") refl

get-update_bucket_stats_example :
    get_bucket backend
      (update_bucket_stats backend filled (codes "b") (negsuc 4) (negsuc 0)).0
      (codes "b")
      empty_bucket_meta
    ≡ (
      true,
      record bucket { total_size = add_u64 100 (negsuc 4); object_count = add_u64 3 (negsuc 0) },
    )
unfolding program
get-update_bucket_stats_example =
    get-update_bucket_stats backend backend_laws filled (codes "b") (negsuc 4) (negsuc 0) bucket
      empty_bucket_meta refl refl bucket_fits refl

list_objects_lem_example :
    list_objects backend filled (codes "b") [] [] (pos 2)
    ≡ take 2 (
        select backend backend_laws filled (codes "b") [] [] 5 (
          take 4
            (keep (λ e. starts_with (scan_prefix (codes "b")) e.0) (backend_laws.entries filled))))
list_objects_lem_example =
    list_objects_lem backend backend_laws filled (codes "b") [] [] (pos 2) (omega arith)

listed : list_objects backend filled (codes "b") [] [] (pos 2) ≡ meta ∷ []
unfolding program list_objects scan_loop seek_from
listed = refl

list_objects_starves_example : list_objects backend filled (codes "b") [] (codes "z") (pos 2) ≡ []
unfolding program rocksdb_backend-IsOrderedBackend memory-IsOrderedStore
list_objects_starves_example =
    list_objects_starves backend backend_laws filled (codes "b") [] (codes "z") (pos 2)
      (omega arith) (refl, tt)

get-put_object_ne_example :
    get_object backend (put_object backend filled meta).0 (codes "b") (codes "j") empty_object_meta
    ≡ get_object backend filled (codes "b") (codes "j") empty_object_meta
get-put_object_ne_example =
    get-put_object_ne backend backend_laws filled meta empty_object_meta (codes "b") (codes "j")
      (λ e. absurd (omega (arith, e)), tt) (λ e. absurd (omega (arith, e)), tt) (λ h. other_key h.1)

get-delete_object_example :
    (object_exists backend
        (delete_object backend filled (codes "b") (codes "k")).0
        (codes "b")
        (codes "k")
      ≡ false)
    × (get_object backend
          (delete_object backend filled (codes "b") (codes "k")).0
          (codes "b")
          (codes "k")
          empty_object_meta
        ≡ (false, empty_object_meta))
unfolding program
get-delete_object_example =
    get-delete_object backend backend_laws filled (codes "b") (codes "k") empty_object_meta refl

decode-encode_bucket_example :
    decode_bucket (encode_bucket bucket ++ codes "rest") empty_bucket_meta ≡ (true, bucket)
decode-encode_bucket_example =
    decode-encode_bucket bucket empty_bucket_meta (codes "rest") bucket_fits
