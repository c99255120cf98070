-- ===== src/S3/Types.antt =====
-- include/nebulastore/protocol/s3_types.h: requests, responses and errors.
use nimbus_store.Base.{ℕ, List, [], ◌++◌, Bool, Option, none, some, if◌then◌else◌}
use nimbus_store.Base.Int.{ℤ}
use nimbus_store.Bytes.{Bytes, codes, bytes_eq}
use nimbus_store.OrderedMap.{Map, find}

pub data S3Op : Type 0 where
  unknown : S3Op
  list_buckets create_bucket delete_bucket head_bucket : S3Op
  list_objects list_objects_v2 : S3Op
  get_object put_object delete_object head_object copy_object : S3Op
  init_multipart upload_part complete_multipart abort_multipart list_parts : S3Op

pub record S3Error : Type 0 where
  pub http_status : ℕ
  pub code : Bytes
  pub message : Bytes

abbrev pub no_such_bucket : S3Error
no_such_bucket = record {
  http_status = 404;
  code = codes "NoSuchBucket";
  message = codes "The specified bucket does not exist";
}

abbrev pub no_such_key : S3Error
no_such_key = record {
  http_status = 404;
  code = codes "NoSuchKey";
  message = codes "The specified key does not exist";
}

abbrev pub bucket_already_exists : S3Error
bucket_already_exists = record {
  http_status = 409;
  code = codes "BucketAlreadyExists";
  message = codes "Bucket already exists";
}

abbrev pub bucket_not_empty : S3Error
bucket_not_empty = record {
  http_status = 409;
  code = codes "BucketNotEmpty";
  message = codes "Bucket is not empty";
}

abbrev pub internal_error : S3Error
internal_error = record {
  http_status = 500;
  code = codes "InternalError";
  message = codes "Internal error";
}

abbrev pub not_implemented : S3Error
not_implemented = record {
  http_status = 501;
  code = codes "NotImplemented";
  message = codes "Not implemented";
}

pub record S3Request : Type 0 where
  pub method : Bytes
  pub uri : Bytes
  pub query_string : Bytes
  pub headers : Map
  pub body : Bytes
  pub bucket_name : Bytes
  pub object_key : Bytes
  pub op : S3Op
  pub params : Map

abbrev pub text_or_empty : Option Bytes → Bytes
text_or_empty none = []
text_or_empty (some v) = v

abbrev pub get_header : S3Request → Bytes → Bytes
get_header req name = text_or_empty (find name req.headers)

abbrev pub get_param : S3Request → Bytes → Bytes
get_param req name = text_or_empty (find name req.params)

pub record S3Response : Type 0 where
  pub status_code : ℕ
  pub headers : Map
  pub body : Bytes
  pub content_type : Bytes

abbrev pub empty_response : S3Response
empty_response = record {
  status_code = 200;
  headers = [];
  body = [];
  content_type = codes "application/xml";
}

unfoldable pub set_error : S3Error → S3Response → S3Response
set_error err resp = record resp {
  status_code = err.http_status;
  body =
      if bytes_eq err.code []
      then resp.body
      else codes "<?xml version=\"1.0\" encoding=\"UTF-8\"?>\n<Error>\n  <Code>"
        ++ (err.code
            ++ (codes "</Code>\n  <Message>" ++ (err.message ++ codes "</Message>\n</Error>")));
}

pub record BucketInfo : Type 0 where
  pub name : Bytes
  pub creation_date : Bytes

pub record ObjectInfo : Type 0 where
  pub key : Bytes
  pub etag : Bytes
  pub size : ℕ
  pub last_modified : Bytes
  pub storage_class : Bytes

pub record ListObjectsResult : Type 0 where
  pub bucket_name : Bytes
  pub prefix : Bytes
  pub marker : Bytes
  pub delimiter : Bytes
  pub max_keys : ℤ
  pub is_truncated : Bool
  pub objects : List ObjectInfo
  pub common_prefixes : List Bytes
