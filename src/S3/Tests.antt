-- ===== src/S3/Tests.antt =====
-- The S3 handlers over a database in memory: the theorems at concrete requests, and tests.
mod Stores
mod Routes
mod Handlers
mod Requests
use mathlib.Core.Bool.{false≢true}
use nimbus_store.Base.{
  ℕ, ◌+◌, ◌*◌, ◌-◌, [], ◌∷◌, ◌++◌, Bool, true, false, ◌&&◌, not, Option, none, some, ◌≡◌, ◌≢◌, refl,
  ◌∙◌, arith, inl, inr, ltb, leb, if◌then◌else◌, All, length,
}
use nimbus_store.Base.Int.{ℤ, pos, negsuc, add_u64, sub_ℕ}
use nimbus_store.Bytes.{Bytes, codes, cmp, starts_with, IsBytes}
use nimbus_store.Bytes.Words.{le_bytes, of_le}
use nimbus_store.Bytes.Order.{bytes_eq_refl}
use nimbus_store.OrderedMap.Laws.{find-insert, find-erase}
use nimbus_store.OrderedMap.{Map, find, insert, erase, seek_from}
use nimbus_store.Rocksdb.{apply_batch, apply_op, read_of}
use nimbus_store.Rocksdb.InMemory.{Memory, memory, memory-IsOrderedStore, write_memory}
use nimbus_store.S3.Backend.{MetadataBackend, rocksdb_backend, scan_loop}
use nimbus_store.S3.Backend.Laws.{IsOrderedBackend, rocksdb_backend-IsOrderedBackend}
use nimbus_store.S3.Encoding.{put_u32, put_u64, put_string, get_u32, get_u64, get_string}
use nimbus_store.S3.Meta.{
  BucketMeta, ObjectMeta, empty_bucket_meta, empty_object_meta, encode_bucket, decode_bucket,
  encode_object, decode_object,
}
use nimbus_store.S3.Meta.BucketRoundTrip.{BucketFits, decode-encode_bucket}
use nimbus_store.S3.Meta.ObjectRoundTrip.{ObjectFits, decode-encode_object}
use nimbus_store.S3.Store.{
  put_bucket, get_bucket, put_object, get_object, delete_object, update_bucket_stats,
}
use nimbus_store.S3.Platform.{Platform, IsFileStore}
use nimbus_store.S3.Types.{S3Request, S3Response, S3Op, empty_response, set_error, no_such_key}
use nimbus_store.S3.Handler.{
  World, replied, failure, handle_create_bucket, handle_put_object, handle_get_object, user_headers,
  object_meta_of, content_response, bucket_meta_of,
}
use nimbus_store.S3.Handler.Objects.{get-put, data_written, status_of}

abbrev backend : MetadataBackend
backend = rocksdb_backend memory

abbrev backend_laws : IsOrderedBackend backend
backend_laws = rocksdb_backend-IsOrderedBackend memory memory-IsOrderedStore

abbrev files : Platform
files = record {
  Fs = Map;
  create_directories = λ fs path. (fs, true);
  remove = λ fs path. (erase path fs, true);
  remove_all = λ fs path. (erase path fs, true);
  write_file = λ fs path content. (insert path content fs, true);
  read_file = λ fs path. find path fs;
  parent_path = λ path. path;
  md5 = λ content. codes "d41d8cd98f00b204e9800998ecf8427e";
  rfc822_time = λ t. codes "Thu, 01 Jan 1970 00:00:00 GMT";
  iso8601_time = λ t. codes "1970-01-01T00:00:00.000Z";
  decimal = λ n. (b'0' + n) ∷ [];
  decimal_int = λ n. codes "1000";
  stoi = λ text. none;
  scan_hex = λ text. none;
}

abbrev World₀ : Type 0
World₀ = World backend files (codes "/srv")

abbrev start : World₀
start = record { store = record { content = []; order = tt; room = 9 }; fs = [] }

abbrev request : S3Request
request = record {
  method = codes "PUT";
  uri = [];
  query_string = [];
  headers = (codes "x-amz-meta-a", codes "1") ∷ [];
  body = codes "hello";
  bucket_name = codes "b";
  object_key = codes "k";
  op = S3Op.unknown;
  params = [];
}

-- What the tests compute with.
program : Unit {0}
unfolding cmp find insert starts_with write_memory apply_batch apply_op read_of le_bytes of_le
    add_u64 handle_create_bucket handle_put_object handle_get_object set_error encode_bucket
    encode_object decode_bucket decode_object put_u32 put_u64 put_string get_u32 get_u64 get_string
    put_bucket get_bucket put_object get_object delete_object update_bucket_stats
program = tt

abbrev created : World₀
unfolding program
created = (handle_create_bucket backend files (codes "/srv") 7 start request).1

created_status :
    status_of (handle_create_bucket backend files (codes "/srv") 7 start request).0 ≡ 200
unfolding program
created_status = refl

put_status : status_of (handle_put_object backend files (codes "/srv") 8 created request).0 ≡ 200
unfolding program
put_status = refl

files_laws : IsFileStore files
files_laws = record {
  read-write = λ fs path content h. find-insert path path content fs ∙ rw bytes_eq_refl refl;
  read-remove = λ fs path h. find-erase path path fs ∙ rw bytes_eq_refl refl;
}

abbrev meta : ObjectMeta
meta = record {
  bucket = codes "b";
  key = codes "k";
  size = 5;
  etag = codes "d41d8cd98f00b204e9800998ecf8427e";
  content_type = codes "application/octet-stream";
  last_modified = 8;
  storage_class = codes "STANDARD";
  data_path = codes "/srv/data/b/k";
  user_metadata = (codes "x-amz-meta-a", codes "1") ∷ (codes "x-amz-meta-b", []) ∷ [];
}

meta_fits : ObjectFits meta
unfolding cmp
meta_fits = record {
  bucket = omega arith;
  key = omega arith;
  size = omega arith;
  etag = omega arith;
  content_type = omega arith;
  last_modified = omega arith;
  storage_class = omega arith;
  data_path = omega arith;
  entries = omega arith;
  texts = omega arith;
  sorted = ((refl, tt), (tt, tt));
}

request_fits : ObjectFits (object_meta_of backend files (codes "/srv") 8 request)
unfolding cmp insert starts_with user_headers find
request_fits = record {
  bucket = omega arith;
  key = omega arith;
  size = omega arith;
  etag = omega arith;
  content_type = omega arith;
  last_modified = omega arith;
  storage_class = omega arith;
  data_path = omega arith;
  entries = omega arith;
  texts = omega arith;
  sorted = (tt, tt);
}

get-put_example :
    let w' = (handle_put_object backend files (codes "/srv") 8 created request).1 in
    (resp : S3Response) × (handle_get_object backend files (codes "/srv") w' request
      ≡ (replied resp, w'))
    × (resp.status_code ≡ 200)
    × (resp.body ≡ codes "hello")
    × (find (codes "Content-Length") resp.headers ≡ some (files.decimal 5))
    × (find (codes "ETag") resp.headers ≡ some (b'"' ∷ (files.md5 (codes "hello") ++ b'"' ∷ [])))
    × (find (codes "Last-Modified") resp.headers ≡ some (files.rfc822_time 8))
    × (resp.content_type ≡ codes "application/octet-stream")
unfolding cmp find
get-put_example =
    get-put backend backend_laws files (codes "/srv") files_laws 8 created request request
      request_fits refl put_status refl refl

decode-encode_object_example :
    decode_object (encode_object meta ++ codes "rest") empty_object_meta ≡ (true, meta)
decode-encode_object_example = decode-encode_object meta empty_object_meta (codes "rest") meta_fits
