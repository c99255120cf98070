-- ===== src/S3/Handler/Objects.antt =====
-- The object handlers together: what a later request sees of an earlier one.
use nimbus_store.Base.{
  ℕ, [], ◌∷◌, ◌++◌, Bool, true, false, Option, none, some, length, if◌then◌else◌, ◌≡◌, refl, ap,
  ap₂, sym, ◌∙◌, arith, Bool-cases, inl, inr,
}
use nimbus_store.Bytes.{Bytes, codes, bytes_eq, cmp}
use nimbus_store.OrderedMap.{find, insert}
use nimbus_store.S3.Backend.{MetadataBackend}
use nimbus_store.S3.Backend.Laws.{IsOrderedBackend}
use nimbus_store.S3.Meta.{ObjectMeta, empty_object_meta}
use nimbus_store.S3.Meta.ObjectRoundTrip.{ObjectFits}
use nimbus_store.S3.Platform.{Platform, IsFileStore}
use nimbus_store.S3.Store.{bucket_exists, put_object, get_object, delete_object}
use nimbus_store.S3.Store.Objects.{get-put_object, get-delete_object}
use nimbus_store.S3.Store.Buckets.{get_object-update_bucket_stats}
use nimbus_store.S3.Types.{S3Request, S3Response, set_error, get_header, no_such_key}
use nimbus_store.S3.Handler.{
  Outcome, replied, threw, World, content_response, object_meta_of, data_path_of, store_metadata,
  handle_put_object, handle_get_object, handle_delete_object, file_reply, failure,
}

-- The status of a response, and 0 where there is none.
abbrev pub status_of : Outcome → ℕ
status_of (replied resp) = resp.status_code
status_of threw = 0

module _ (b : MetadataBackend) (o : IsOrderedBackend b) (p : Platform) (data_dir : Bytes) where
  get-store_metadata :
      (now : ℕ) (w : World b p data_dir) (req : S3Request)
      → ObjectFits (object_meta_of b p data_dir now req)
      → status_of (store_metadata b p data_dir now w req).0 ≡ 200
      → get_object b
          (store_metadata b p data_dir now w req).1.store
          req.bucket_name
          req.object_key
          empty_object_meta
        ≡ (true, object_meta_of b p data_dir now req)
  unfolding store_metadata set_error
  get-store_metadata now w req fits ok_status =
      let meta = object_meta_of b p data_dir now req in
      elim (Bool-cases (put_object b w.store meta).1) [
        | inl done ↦ rw done (
            get_object-update_bucket_stats b o _ _ _ _ _ _ _
            ∙ get-put_object b o w.store meta empty_object_meta fits done)
        | inr failed ↦ absurd (omega (arith, rw failed at ok_status))
      ]

  -- The file that `HandlePutObject` writes, where the directories could be made.
  abbrev pub data_written : World b p data_dir → S3Request → p.Fs × Bool
  data_written w req =
      let path = data_path_of b p data_dir req.bucket_name req.object_key in
      p.write_file (p.create_directories w.fs (p.parent_path path)).0 path req.body

  -- A PUT that is answered with 200 has passed the tests before the metadata.
  handle_put_object-stored :
      (now : ℕ) (w : World b p data_dir) (req : S3Request)
      → status_of (handle_put_object b p data_dir now w req).0 ≡ 200
      → handle_put_object b p data_dir now w req
        ≡ store_metadata b p data_dir now (record w { fs = (data_written w req).0 }) req
  unfolding handle_put_object set_error
  handle_put_object-stored now w req h =
      let path = data_path_of b p data_dir req.bucket_name req.object_key in
      elim (Bool-cases (bucket_exists b w.store req.bucket_name)) [
        | inl there ↦ elim (Bool-cases (p.create_directories w.fs (p.parent_path path)).1) [
          | inl made ↦ rw (there, made) refl
          | inr thrown ↦ absurd (omega (arith, rw (there, thrown) at h))
        ]
        | inr missing ↦ absurd (omega (arith, rw missing at h))
      ]

  -- `HandlePutObject` does not touch the files after the data is written.
  fs-store_metadata :
      (now : ℕ) (w : World b p data_dir) (req : S3Request)
      → (store_metadata b p data_dir now w req).1.fs ≡ w.fs
  unfolding store_metadata
  fs-store_metadata now w req =
      elim (Bool-cases (put_object b w.store (object_meta_of b p data_dir now req)).1) [
        | inl done ↦ rw done refl
        | inr failed ↦ rw failed refl
      ]

  handle_get_object-found :
      (w : World b p data_dir) (req : S3Request) (meta : ObjectMeta)
      → get_object b w.store req.bucket_name req.object_key empty_object_meta ≡ (true, meta)
      → handle_get_object b p data_dir w req
        ≡ (file_reply b p data_dir meta (p.read_file w.fs meta.data_path), w)
  unfolding handle_get_object
  handle_get_object-found w req meta found = rw found refl

  get-put_response :
      (f : IsFileStore p) (now : ℕ) (w : World b p data_dir) (req req' : S3Request)
      → ObjectFits (object_meta_of b p data_dir now req)
      → (data_written w req).1 ≡ true
      → status_of (handle_put_object b p data_dir now w req).0 ≡ 200
      → req'.bucket_name ≡ req.bucket_name
      → req'.object_key ≡ req.object_key
      → handle_get_object b p data_dir (handle_put_object b p data_dir now w req).1 req' ≡ (
        replied (content_response b p data_dir (object_meta_of b p data_dir now req) req.body),
        (handle_put_object b p data_dir now w req).1,
      )
  get-put_response f now w req req' fits written ok_status same_bucket same_key =
      let meta = object_meta_of b p data_dir now req in
      let w₁ : World b p data_dir = record w { fs = (data_written w req).0 } in
      let w₂ = (store_metadata b p data_dir now w₁ req).1 in
      let path = handle_put_object-stored now w req ok_status in
      let stored : status_of (store_metadata b p data_dir now w₁ req).0 ≡ 200 =
        ap (λ (t : Outcome × World b p data_dir). status_of t.0) (sym path) ∙ ok_status in
      let read : p.read_file w₂.fs meta.data_path ≡ some req.body =
        ap (λ (fs : p.Fs). p.read_file fs meta.data_path) (fs-store_metadata now w₁ req)
        ∙ f.read-write _ _ _ written in
      rw path (
        handle_get_object-found w₂ req' meta (
          ap₂ (λ (c k : Bytes). get_object b w₂.store c k empty_object_meta) same_bucket same_key
          ∙ get-store_metadata now w₁ req fits stored)
        ∙ ap (λ (c : Option Bytes). (file_reply b p data_dir meta c, w₂)) read)

  -- Over a metadata backend that is an ordered map and files that are read back as they were
  -- written, let a PUT of an object, whose metadata fit their fields, be answered with 200 and its
  -- data file be written. Then a GET of the same bucket and key changes nothing and is answered
  -- with 200 and the body of the PUT; the headers are the body's length, its MD5 in quotes as the
  -- ETag and the time of the PUT, and the content type is that of the PUT, or application/octet-
  -- stream where it had none.
  pub get-put :
      (f : IsFileStore p) (now : ℕ) (w : World b p data_dir) (req req' : S3Request)
      → ObjectFits (object_meta_of b p data_dir now req)
      → (data_written w req).1 ≡ true
      → status_of (handle_put_object b p data_dir now w req).0 ≡ 200
      → req'.bucket_name ≡ req.bucket_name
      → req'.object_key ≡ req.object_key
      → let w' = (handle_put_object b p data_dir now w req).1 in
        let given = get_header req (codes "Content-Type") in
        (resp : S3Response) × (handle_get_object b p data_dir w' req' ≡ (replied resp, w'))
        × (resp.status_code ≡ 200)
        × (resp.body ≡ req.body)
        × (find (codes "Content-Length") resp.headers ≡ some (p.decimal (length req.body)))
        × (find (codes "ETag") resp.headers ≡ some (b'"' ∷ (p.md5 req.body ++ b'"' ∷ [])))
        × (find (codes "Last-Modified") resp.headers ≡ some (p.rfc822_time now))
        × (resp.content_type
            ≡ (if bytes_eq given [] then codes "application/octet-stream" else given))
  unfolding find insert cmp
  get-put f now w req req' fits written ok_status same_bucket same_key = (
    content_response b p data_dir (object_meta_of b p data_dir now req) req.body,
    get-put_response f now w req req' fits written ok_status same_bucket same_key,
    refl,
    refl,
    refl,
    refl,
    refl,
    elim (Bool-cases (bytes_eq (get_header req (codes "Content-Type")) [])) [
      | inl none_given ↦ rw none_given refl
      | inr given ↦ rw (given, given) refl
    ],
  )

  get-put_missing :
      (now : ℕ) (w : World b p data_dir) (req req' : S3Request)
      → ObjectFits (object_meta_of b p data_dir now req)
      → p.read_file
          (data_written w req).0
          (data_path_of b p data_dir req.bucket_name req.object_key)
        ≡ none
      → status_of (handle_put_object b p data_dir now w req).0 ≡ 200
      → req'.bucket_name ≡ req.bucket_name
      → req'.object_key ≡ req.object_key
      → (handle_get_object b p data_dir (handle_put_object b p data_dir now w req).1 req').0
        ≡ failure no_such_key
  get-put_missing now w req req' fits lost ok_status same_bucket same_key =
      let meta = object_meta_of b p data_dir now req in
      let w₁ : World b p data_dir = record w { fs = (data_written w req).0 } in
      let w₂ = (store_metadata b p data_dir now w₁ req).1 in
      let path = handle_put_object-stored now w req ok_status in
      let stored : status_of (store_metadata b p data_dir now w₁ req).0 ≡ 200 =
        ap (λ (t : Outcome × World b p data_dir). status_of t.0) (sym path) ∙ ok_status in
      let read : p.read_file w₂.fs meta.data_path ≡ none =
        ap (λ (fs : p.Fs). p.read_file fs meta.data_path) (fs-store_metadata now w₁ req) ∙ lost in
      rw path (
        ap (λ (t : Outcome × World b p data_dir). t.0)
          (handle_get_object-found w₂ req' meta (
            ap₂ (λ (c k : Bytes). get_object b w₂.store c k empty_object_meta) same_bucket same_key
            ∙ get-store_metadata now w₁ req fits stored))
        ∙ ap (file_reply b p data_dir meta) read)

  handle_put_object-answered :
      (now : ℕ) (w : World b p data_dir) (req : S3Request)
      → bucket_exists b w.store req.bucket_name ≡ true
      → (p.create_directories w.fs
          (p.parent_path (data_path_of b p data_dir req.bucket_name req.object_key))).1
        ≡ true
      → (put_object b w.store (object_meta_of b p data_dir now req)).1 ≡ true
      → status_of (handle_put_object b p data_dir now w req).0 ≡ 200
  unfolding handle_put_object store_metadata
  handle_put_object-answered now w req there made put = rw (there, made, put) refl

  -- Over a metadata backend that is an ordered map, let a bucket be there, the directories of an
  -- object's file be made, and the object's metadata, which fit their fields, be stored; and let
  -- its data file not be readable after it was written, however that went. Then the PUT is answered
  -- with 200 all the same, and a GET of the same bucket and key with 404.
  pub get-put_lost :
      (now : ℕ) (w : World b p data_dir) (req req' : S3Request)
      → let path = data_path_of b p data_dir req.bucket_name req.object_key in
        let meta = object_meta_of b p data_dir now req in
        ObjectFits meta
        → bucket_exists b w.store req.bucket_name ≡ true
        → (p.create_directories w.fs (p.parent_path path)).1 ≡ true
        → (put_object b w.store meta).1 ≡ true
        → p.read_file (data_written w req).0 path ≡ none
        → req'.bucket_name ≡ req.bucket_name
        → req'.object_key ≡ req.object_key
        → (status_of (handle_put_object b p data_dir now w req).0 ≡ 200)
          × (status_of
                (handle_get_object b p data_dir (handle_put_object b p data_dir now w req).1 req').0
              ≡ 404)
  unfolding set_error
  get-put_lost now w req req' fits there made put lost same_bucket same_key =
      let ok_status = handle_put_object-answered now w req there made put in
      (
        ok_status,
        ap status_of (get-put_missing now w req req' fits lost ok_status same_bucket same_key),
      )

  handle_get_object-missing :
      (w : World b p data_dir) (req : S3Request)
      → (get_object b w.store req.bucket_name req.object_key empty_object_meta).0 ≡ false
      → handle_get_object b p data_dir w req ≡ (failure no_such_key, w)
  unfolding handle_get_object
  handle_get_object-missing w req missing = rw missing refl

  -- Over a metadata backend that is an ordered map, let the entries of an object be deleted without
  -- a failure and, where its metadata are found, its file be removed. Then the DELETE is answered
  -- with 204, whether the object was there or not, and after it a GET of the same bucket and key is
  -- answered with 404.
  pub get-delete :
      (w : World b p data_dir) (req req' : S3Request)
      → (delete_object b w.store req.bucket_name req.object_key).1 ≡ true
      → let read = get_object b w.store req.bucket_name req.object_key empty_object_meta in
        (read.0 ≡ true → (p.remove w.fs read.1.data_path).1 ≡ true)
        → req'.bucket_name ≡ req.bucket_name
        → req'.object_key ≡ req.object_key
        → (status_of (handle_delete_object b p data_dir w req).0 ≡ 204)
          × ((handle_get_object b p data_dir (handle_delete_object b p data_dir w req).1 req').0
              ≡ failure no_such_key)
  unfolding handle_delete_object
  get-delete w req req' deleted removes same_bucket same_key =
      let read = get_object b w.store req.bucket_name req.object_key empty_object_meta in
      let there : (s : b.State) → Bool × ObjectMeta =
        λ s. get_object b s req'.bucket_name req'.object_key empty_object_meta in
      let same : (s : b.State)
          → there s ≡ get_object b s req.bucket_name req.object_key empty_object_meta =
        λ s. ap₂ (λ (c k : Bytes). get_object b s c k empty_object_meta) same_bucket same_key in
      elim (Bool-cases read.0) [
        | inl found ↦
            rw (found, removes found)
              (
                refl,
                ap (λ (t : Outcome × World b p data_dir). t.0)
                    (handle_get_object-missing _ req' (
                      ap (λ (t : Bool × ObjectMeta). t.0)
                        (same _
                          ∙ get_object-update_bucket_stats b o _ _ _ _ _ _ _
                          ∙ (get-delete_object b o w.store req.bucket_name req.object_key
                              empty_object_meta deleted).1))),
              )
        | inr missing ↦ rw missing (
          refl,
          ap (λ (t : Outcome × World b p data_dir). t.0)
              (handle_get_object-missing w req'
                (ap (λ (t : Bool × ObjectMeta). t.0) (same w.store) ∙ missing)),
        )
      ]
