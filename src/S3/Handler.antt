-- ===== src/S3/Handler.antt =====
-- `S3Handler` of include/nebulastore/protocol/s3_handler.h. A handler takes the state of the
-- metadata and of the file system and returns it beside the response, or beside `threw` where an
-- exception of the library leaves the handler. `now` is the clock's reading.
pub mod Objects
pub mod Requests
pub mod Buckets
use nimbus_store.Base.{
  ℕ, List, [], ◌∷◌, ◌++◌, Bool, true, false, not, ◌||◌, Option, none, some, length, if◌then◌else◌,
}
use nimbus_store.Base.Int.{ℤ, pos, sub_ℕ, neg, reached}
use nimbus_store.Bytes.{Bytes, codes, bytes_eq, starts_with}
use nimbus_store.OrderedMap.{Map, insert}
use nimbus_store.S3.Backend.{MetadataBackend}
use nimbus_store.S3.Meta.{BucketMeta, ObjectMeta, empty_object_meta}
use nimbus_store.S3.Platform.{Platform}
use nimbus_store.S3.Router.{parse_request}
use nimbus_store.S3.Store
use nimbus_store.S3.Types.{
  S3Op, S3Request, S3Response, S3Error, BucketInfo, ObjectInfo, ListObjectsResult, empty_response,
  set_error, get_header, get_param, no_such_bucket, no_such_key, bucket_already_exists,
  bucket_not_empty, internal_error, not_implemented,
}
use nimbus_store.S3.Xml.{list_buckets_result, list_bucket_result}

pub data Outcome : Type 0 where
  replied : S3Response → Outcome
  threw : Outcome

abbrev pub failure : S3Error → Outcome
failure err = replied (set_error err empty_response)

abbrev quoted : Bytes → Bytes
quoted s = codes "\"" ++ (s ++ codes "\"")

-- the loop over the headers: those of the user's metadata
unfoldable pub user_headers : Map → Map → Map
user_headers [] found = found
user_headers ((k, v) ∷ headers) found = user_headers headers (
    if starts_with (codes "x-amz-meta-") k || starts_with (codes "X-Amz-Meta-") k
    then insert k v found
    else found)

abbrev or_octet_stream : Bytes → Bytes
or_octet_stream t = if bytes_eq t [] then codes "application/octet-stream" else t

abbrev pub bucket_meta_of : ℕ → S3Request → BucketMeta
bucket_meta_of now req = record {
  name = req.bucket_name;
  owner = codes "owner";
  creation_time = now;
  object_count = 0;
  total_size = 0;
  region = codes "default";
  storage_class = codes "STANDARD";
}

module _ (b : MetadataBackend) (p : Platform) (data_dir : Bytes) where
  pub record World : Type 0 where
    pub store : b.State
    pub fs : p.Fs

  abbrev pub data_path_of : Bytes → Bytes → Bytes
  data_path_of bucket key = data_dir ++ (codes "/data/" ++ (bucket ++ (codes "/" ++ key)))

  abbrev bucket_infos : List BucketMeta → List BucketInfo
  bucket_infos [] = []
  bucket_infos (m ∷ rest) =
      record { name = m.name; creation_date = p.iso8601_time m.creation_time } ∷ bucket_infos rest

  unfoldable pub handle_list_buckets : World → S3Request → Outcome × World
  handle_list_buckets w req =
      let buckets = Store.list_buckets b w.store in
      (
        replied (record empty_response {
          body = list_buckets_result (codes "owner") (codes "owner") (bucket_infos buckets);
        }),
        w,
      )

  unfoldable pub handle_create_bucket : ℕ → World → S3Request → Outcome × World
  handle_create_bucket now w req =
      if Store.bucket_exists b w.store req.bucket_name
      then (failure bucket_already_exists, w)
      else (let (s, done) = Store.put_bucket b w.store (bucket_meta_of now req) in
          if not done
          then (failure internal_error, record w { store = s })
          else (let (fs, made) =
                p.create_directories w.fs (data_dir ++ (codes "/data/" ++ req.bucket_name)) in
              (if made then replied empty_response else threw, record { store = s; fs = fs })))

  unfoldable pub handle_delete_bucket : World → S3Request → Outcome × World
  handle_delete_bucket w req =
      if not (Store.bucket_exists b w.store req.bucket_name)
      then (failure no_such_bucket, w)
      else elim (Store.list_objects b w.store req.bucket_name [] [] (pos 1)) [
        | _ ∷ _ ↦ (failure bucket_not_empty, w)
        | [] ↦
            let (s, _) = Store.delete_bucket b w.store req.bucket_name in
            let (fs, removed) =
              p.remove_all w.fs (data_dir ++ (codes "/data/" ++ req.bucket_name)) in
            (
              if removed then replied (record empty_response { status_code = 204 }) else threw,
              record { store = s; fs = fs },
            )
      ]

  unfoldable pub handle_head_bucket : World → S3Request → Outcome × World
  handle_head_bucket w req =
      if not (Store.bucket_exists b w.store req.bucket_name)
      then (failure no_such_bucket, w)
      else (replied empty_response, w)

  abbrev object_infos : List ObjectMeta → List ObjectInfo
  object_infos [] = []
  object_infos (m ∷ rest) =
      record {
        key = m.key;
        etag = m.etag;
        size = m.size;
        last_modified = p.iso8601_time m.last_modified;
        storage_class = m.storage_class;
      }
      ∷ object_infos rest

  -- the listing, once `max_keys` is known
  unfoldable pub listing : World → S3Request → ℤ → S3Response
  listing w req max_keys =
      let prefix = get_param req (codes "prefix") in
      let marker = get_param req (codes "marker") in
      let objects = Store.list_objects b w.store req.bucket_name prefix marker max_keys in
      let r : ListObjectsResult = record {
        bucket_name = req.bucket_name;
        prefix = prefix;
        marker = marker;
        delimiter = get_param req (codes "delimiter");
        max_keys = max_keys;
        is_truncated = reached max_keys (length objects);
        objects = object_infos objects;
        common_prefixes = [];
      } in
      record empty_response { body = list_bucket_result p.decimal p.decimal_int r }

  unfoldable pub handle_list_objects : World → S3Request → Outcome × World
  unfolding listing
  handle_list_objects w req =
      if not (Store.bucket_exists b w.store req.bucket_name)
      then (failure no_such_bucket, w)
      else (let text = get_param req (codes "max-keys") in
          elim (if bytes_eq text [] then some (pos 1000) else p.stoi text) [
            | none ↦ (threw, w)
            | some max_keys ↦ (replied (listing w req max_keys), w)
          ])

  -- the response with an object's content
  abbrev pub content_response : ObjectMeta → Bytes → S3Response
  content_response meta content = record {
    status_code = 200;
    headers = insert (codes "Last-Modified") (p.rfc822_time meta.last_modified) (
        insert (codes "ETag") (quoted meta.etag)
          (insert (codes "Content-Length") (p.decimal meta.size) []));
    body = content;
    content_type = or_octet_stream meta.content_type;
  }

  abbrev pub file_reply : ObjectMeta → Option Bytes → Outcome
  file_reply meta none = failure no_such_key
  file_reply meta (some content) = replied (content_response meta content)

  unfoldable pub handle_get_object : World → S3Request → Outcome × World
  handle_get_object w req =
      let (done, meta) =
        Store.get_object b w.store req.bucket_name req.object_key empty_object_meta in
      if not done
      then (failure no_such_key, w)
      else (file_reply meta (p.read_file w.fs meta.data_path), w)

  abbrev pub object_meta_of : ℕ → S3Request → ObjectMeta
  object_meta_of now req = record {
    bucket = req.bucket_name;
    key = req.object_key;
    size = length req.body;
    etag = p.md5 req.body;
    content_type = or_octet_stream (get_header req (codes "Content-Type"));
    last_modified = now;
    storage_class = codes "STANDARD";
    data_path = data_path_of req.bucket_name req.object_key;
    user_metadata = user_headers req.headers [];
  }

  -- The second half of `HandlePutObject`, after the data is written. What `GetObject` and
  -- `UpdateBucketStats` return is not looked at.
  unfoldable pub store_metadata : ℕ → World → S3Request → Outcome × World
  unfolding user_headers
  store_metadata now w req =
      let is_update = Store.object_exists b w.store req.bucket_name req.object_key in
      let old_meta =
        if is_update
        then (Store.get_object b w.store req.bucket_name req.object_key empty_object_meta).1
        else empty_object_meta in
      let meta = object_meta_of now req in
      let (s, done) = Store.put_object b w.store meta in
      if not done
      then (failure internal_error, record w { store = s })
      else (let size_delta = if is_update then sub_ℕ meta.size old_meta.size else pos meta.size in
          let count_delta = if is_update then pos 0 else pos 1 in
          let (s', _) = Store.update_bucket_stats b s req.bucket_name size_delta count_delta in
          (
            replied (record empty_response {
              headers = insert (codes "ETag") (quoted (p.md5 req.body)) [];
            }),
            record w { store = s' },
          ))

  -- `f << req.body; f.close();`: whether the stream failed is not looked at.
  unfoldable pub handle_put_object : ℕ → World → S3Request → Outcome × World
  unfolding store_metadata
  handle_put_object now w req =
      if not (Store.bucket_exists b w.store req.bucket_name)
      then (failure no_such_bucket, w)
      else (let path = data_path_of req.bucket_name req.object_key in
          let (fs, made) = p.create_directories w.fs (p.parent_path path) in
          if not made
          then (threw, record w { fs = fs })
          else (let (fs', _) = p.write_file fs path req.body in
              store_metadata now (record w { fs = fs' }) req))

  unfoldable pub handle_delete_object : World → S3Request → Outcome × World
  handle_delete_object w req =
      let (done, meta) =
        Store.get_object b w.store req.bucket_name req.object_key empty_object_meta in
      let no_content = replied (record empty_response { status_code = 204 }) in
      if not done
      then (no_content, w)
      else (let (fs, removed) = p.remove w.fs meta.data_path in
          if not removed
          then (threw, record w { fs = fs })
          else (let (s, _) = Store.delete_object b w.store req.bucket_name req.object_key in
              let (s', _) = Store.update_bucket_stats b s req.bucket_name (neg meta.size) (neg 1) in
              (no_content, record { store = s'; fs = fs })))

  unfoldable pub handle_head_object : World → S3Request → Outcome × World
  handle_head_object w req =
      let (done, meta) =
        Store.get_object b w.store req.bucket_name req.object_key empty_object_meta in
      if not done then (failure no_such_key, w) else (
        replied (record empty_response {
          headers = insert (codes "Content-Type") meta.content_type (
              insert (codes "Last-Modified") (p.rfc822_time meta.last_modified) (
                insert (codes "ETag") (quoted meta.etag)
                  (insert (codes "Content-Length") (p.decimal meta.size) [])));
        }),
        w,
      )

  -- the `switch` of `Handle`
  unfoldable pub dispatch : S3Op → ℕ → World → S3Request → Outcome × World
  dispatch S3Op.list_buckets now w req = handle_list_buckets w req
  dispatch S3Op.create_bucket now w req = handle_create_bucket now w req
  dispatch S3Op.delete_bucket now w req = handle_delete_bucket w req
  dispatch S3Op.head_bucket now w req = handle_head_bucket w req
  dispatch S3Op.list_objects now w req = handle_list_objects w req
  dispatch S3Op.list_objects_v2 now w req = handle_list_objects w req
  dispatch S3Op.get_object now w req = handle_get_object w req
  dispatch S3Op.put_object now w req = handle_put_object now w req
  dispatch S3Op.delete_object now w req = handle_delete_object w req
  dispatch S3Op.head_object now w req = handle_head_object w req
  dispatch _ now w req = (failure not_implemented, w)

  unfoldable pub handle : ℕ → World → S3Request → Outcome × World
  handle now w req = let req' = parse_request p.scan_hex req in dispatch req'.op now w req'
