-- ===== src/S3/Tests/Handlers.antt =====
-- The handlers at concrete requests.
use nimbus_store.Base.{[], false, ◌≡◌, refl, arith}
use nimbus_store.Bytes.{Bytes, codes}
use nimbus_store.S3.Meta.BucketRoundTrip.{BucketFits}
use nimbus_store.S3.Platform.{Platform}
use nimbus_store.S3.Types.{no_such_key}
use nimbus_store.S3.Handler.{
  World, failure, bucket_meta_of, handle_get_object, handle_put_object, handle_delete_object,
}
use nimbus_store.S3.Handler.Objects.{get-delete, get-put_lost, status_of}
use nimbus_store.S3.Tests.{
  program, backend, backend_laws, files, World₀, created, request, request_fits,
}

abbrev dir : Bytes
dir = codes "/srv"

abbrev stored : World₀
stored = (handle_put_object backend files dir 8 created request).1

bucket_fits : BucketFits (bucket_meta_of 7 request)
bucket_fits = record {
  name = omega arith;
  owner = omega arith;
  creation_time = omega arith;
  object_count = omega arith;
  total_size = omega arith;
  region = omega arith;
  storage_class = omega arith;
}

get-delete_example :
    (status_of (handle_delete_object backend files dir stored request).0 ≡ 204)
    × ((handle_get_object backend files dir
          (handle_delete_object backend files dir stored request).1
          request).0
        ≡ failure no_such_key)
unfolding program
get-delete_example =
    get-delete backend backend_laws files dir stored request request refl (λ found. refl) refl refl

-- A disk on which a stream fails without a sign, beside a database that works.
abbrev bad_disk : Platform
bad_disk = record files { write_file = λ fs path content. (fs, false) }

abbrev bad_start : World backend bad_disk dir
bad_start = record { store = created.store; fs = [] }

get-put_lost_example :
    (status_of (handle_put_object backend bad_disk dir 8 bad_start request).0 ≡ 200)
    × (status_of
          (handle_get_object backend bad_disk dir
            (handle_put_object backend bad_disk dir 8 bad_start request).1
            request).0
        ≡ 404)
unfolding program
get-put_lost_example =
    get-put_lost backend backend_laws bad_disk dir 8 bad_start request request request_fits refl
      refl refl refl refl refl
