-- ===== src/S3/Handler/Buckets.antt =====
-- The bucket handlers together.
use nimbus_store.Base.{
  ℕ, [], true, ◌≡◌, ◌≢◌, refl, ap, ap₂, ◌∙◌, arith, List-cons_of_ne, Bool-cases, inl, inr,
}
use nimbus_store.Base.Int.{pos}
use nimbus_store.Bytes.{Bytes}
use nimbus_store.S3.Backend.{MetadataBackend}
use nimbus_store.S3.Backend.Laws.{IsOrderedBackend}
use nimbus_store.S3.Meta.{empty_bucket_meta}
use nimbus_store.S3.Meta.BucketRoundTrip.{BucketFits}
use nimbus_store.S3.Platform.{Platform}
use nimbus_store.S3.Store.{bucket_exists, put_bucket, get_bucket, list_objects}
use nimbus_store.S3.Store.Buckets.{get-put_bucket}
use nimbus_store.S3.Types.{
  S3Request, set_error, empty_response, bucket_already_exists, bucket_not_empty,
}
use nimbus_store.S3.Handler.{
  World, replied, failure, bucket_meta_of, handle_create_bucket, handle_delete_bucket,
  handle_head_bucket,
}
use nimbus_store.S3.Handler.Objects.{status_of}

module _ (b : MetadataBackend) (p : Platform) (data_dir : Bytes) (w : World b p data_dir)
    (req : S3Request) where
  head_existing :
      bucket_exists b w.store req.bucket_name ≡ true
      → handle_head_bucket b p data_dir w req ≡ (replied empty_response, w)
  unfolding handle_head_bucket
  head_existing there = rw there refl

  create_existing :
      (now : ℕ)
      → bucket_exists b w.store req.bucket_name ≡ true
      → handle_create_bucket b p data_dir now w req ≡ (failure bucket_already_exists, w)
  unfolding handle_create_bucket
  create_existing now there = rw there refl

module _ (b : MetadataBackend) (o : IsOrderedBackend b) (p : Platform) (data_dir : Bytes) where
  -- A creation that is answered with 200 has written the bucket's record.
  handle_create_bucket-stored :
      (now : ℕ) (w : World b p data_dir) (req : S3Request)
      → status_of (handle_create_bucket b p data_dir now w req).0 ≡ 200
      → ((put_bucket b w.store (bucket_meta_of now req)).1 ≡ true)
        × ((handle_create_bucket b p data_dir now w req).1.store
            ≡ (put_bucket b w.store (bucket_meta_of now req)).0)
  unfolding handle_create_bucket set_error
  handle_create_bucket-stored now w req h =
      elim (Bool-cases (bucket_exists b w.store req.bucket_name)) [
        | inl there ↦ absurd (omega (arith, rw there at h))
        | inr fresh ↦ elim (Bool-cases (put_bucket b w.store (bucket_meta_of now req)).1) [
          | inl done ↦ (done, rw (fresh, done) refl)
          | inr failed ↦ absurd (omega (arith, rw (fresh, failed) at h))
        ]
      ]

  -- If the creation of a bucket is answered with 200, its record says that it has no objects,
  -- HEAD of the bucket is answered with 200, and a second creation of it is refused with
  -- BucketAlreadyExists; both change nothing.
  pub after_create :
      (now later : ℕ) (w : World b p data_dir) (req req' : S3Request)
      → BucketFits (bucket_meta_of now req)
      → status_of (handle_create_bucket b p data_dir now w req).0 ≡ 200
      → req'.bucket_name ≡ req.bucket_name
      → (get_bucket b
            (handle_create_bucket b p data_dir now w req).1.store
            req.bucket_name
            empty_bucket_meta
          ≡ (true, bucket_meta_of now req))
        × (handle_head_bucket b p data_dir (handle_create_bucket b p data_dir now w req).1 req'
            ≡ (replied empty_response, (handle_create_bucket b p data_dir now w req).1))
        × (handle_create_bucket b p data_dir later
              (handle_create_bucket b p data_dir now w req).1
              req'
            ≡ (failure bucket_already_exists, (handle_create_bucket b p data_dir now w req).1))
  after_create now later w req req' fits ok_status same =
      let w' = (handle_create_bucket b p data_dir now w req).1 in
      let (done, stored) = handle_create_bucket-stored now w req ok_status in
      let (there, read) =
        get-put_bucket b o w.store (bucket_meta_of now req) empty_bucket_meta fits done in
      let exists : bucket_exists b w'.store req'.bucket_name ≡ true =
        ap₂ (λ (s : b.State) (n : Bytes). bucket_exists b s n) stored same ∙ there in
      (
        ap (λ (s : b.State). get_bucket b s req.bucket_name empty_bucket_meta) stored ∙ read,
        head_existing b p data_dir w' req' exists,
        create_existing b p data_dir w' req' later exists,
      )

  -- A bucket with an object in its listing is not deleted: the answer is BucketNotEmpty and
  -- nothing changes.
  pub delete_nonempty :
      (w : World b p data_dir) (req : S3Request)
      → bucket_exists b w.store req.bucket_name ≡ true
      → list_objects b w.store req.bucket_name [] [] (pos 1) ≢ []
      → handle_delete_bucket b p data_dir w req ≡ (failure bucket_not_empty, w)
  unfolding handle_delete_bucket
  delete_nonempty w req there some_object =
      let (m, rest, listed) =
        List-cons_of_ne (list_objects b w.store req.bucket_name [] [] (pos 1)) some_object in
      rw there (rw (listed, handle_delete_bucket) refl)
