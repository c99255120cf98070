-- ===== src/Gateway/Handlers.antt =====
-- The HTTP handlers of `S3Gateway::HTTPServer` in src/protocol/s3_gateway.cpp: from a path and a
-- body to the text of the answer. `format_timestamp` is the calendar's text for a time.
use nimbus_store.Base.{ℕ, List, [], ◌∷◌, ◌++◌, Bool, Option, none, some, ◌&&◌, not, if◌then◌else◌}
use nimbus_store.Bytes.{Bytes, codes}
use nimbus_store.Metadata.Types.{Status, is_not_found_code, after_call, is_ok, InodeAttr}
use nimbus_store.Metadata.Interface.{MetadataService}
use nimbus_store.Storage.{StorageBackend}
use nimbus_store.Namespace.Service.{World}
use nimbus_store.Gateway.Paths.{parse_s3_path}
use nimbus_store.Gateway.Operations.{
  S3Object, etag_of, put_object, get_object, head_object, delete_object, list_objects,
}

abbrev pub is_not_found : Status → Bool
is_not_found s = is_not_found_code s.code

abbrev pub error_response : Bytes → Bytes → Bytes
error_response code message =
    codes "<?xml version=\"1.0\" encoding=\"UTF-8\"?>"
    ++ (codes "<Error><Code>"
        ++ (code ++ (codes "</Code><Message>" ++ (message ++ codes "</Message></Error>"))))

abbrev pub invalid_uri : Bytes
invalid_uri = error_response (codes "InvalidURI") (codes "Invalid request URI")

-- the answer to a status that is not OK
abbrev pub failure : Bytes → Bytes → Status → Bytes
failure code message s =
    if is_not_found s
    then error_response code message
    else error_response (codes "InternalError") s.message

abbrev pub handle_list_buckets : Bytes
handle_list_buckets =
    codes "<?xml version=\"1.0\" encoding=\"UTF-8\"?>\n"
    ++ (codes "<ListAllMyBucketsResult xmlns=\"http://s3.amazonaws.com/doc/2006-03-01/\">\n"
        ++ (codes "  <Owner><ID>owner</ID><DisplayName>owner</DisplayName></Owner>\n"
            ++ (codes "  <Buckets></Buckets>\n" ++ codes "</ListAllMyBucketsResult>")))

abbrev delete_at : Option (Bytes × Bytes) → Bytes
delete_at none = invalid_uri
delete_at (some (bucket, [])) = []
delete_at (some (bucket, (c ∷ key))) =
    let s = delete_object bucket (c ∷ key) in
    if not (is_ok s) && not (is_not_found s)
    then error_response (codes "InternalError") s.message
    else []

unfoldable pub handle_delete : Bytes → Bytes
unfolding parse_s3_path delete_object
handle_delete path = delete_at (parse_s3_path path)

module _ (ms : MetadataService) (sb : StorageBackend) (to_string hex format_timestamp : ℕ → Bytes)
    (default_bucket : Bytes) where
  abbrev pub contents_of : S3Object → Bytes
  contents_of obj =
      codes "<Contents>"
      ++ (codes "<Key>"
          ++ (obj.key
              ++ (codes "</Key><Size>"
                  ++ (to_string obj.size
                      ++ (codes "</Size><LastModified>"
                          ++ (format_timestamp obj.mtime
                              ++ (codes "</LastModified><ETag>"
                                  ++ (obj.etag ++ codes "</ETag></Contents>"))))))))

  unfoldable pub all_contents : List S3Object → Bytes
  all_contents [] = []
  all_contents (obj ∷ objects) = contents_of obj ++ all_contents objects

  unfoldable pub handle_list_objects : World ms sb to_string default_bucket → Bytes → Bytes
  unfolding all_contents list_objects
  handle_list_objects w bucket =
      after_call (list_objects ms sb to_string default_bucket hex w bucket [])
        (failure (codes "NoSuchBucket") (codes "The specified bucket does not exist."))
        (λ objects.
          codes "<?xml version=\"1.0\" encoding=\"UTF-8\"?>"
          ++ (codes "<ListBucketResult xmlns=\"http://s3.amazonaws.com/doc/2006-03-01/\">"
              ++ (codes "<Name>"
                  ++ (bucket
                      ++ (codes "</Name>"
                          ++ (codes
                                "<Prefix></Prefix><MaxKeys>1000</MaxKeys><IsTruncated>false</IsTruncated>"
                              ++ (all_contents objects ++ codes "</ListBucketResult>")))))))

  abbrev get_at : World ms sb to_string default_bucket → Option (Bytes × Bytes) → Bytes
  get_at w none = invalid_uri
  get_at w (some (bucket, [])) = handle_list_objects w bucket
  get_at w (some (bucket, (c ∷ key))) =
      after_call (get_object ms sb to_string default_bucket w bucket (c ∷ key) 0 0)
        (failure (codes "NoSuchKey") (codes "The specified key does not exist."))
        (λ content. content)

  unfoldable pub handle_get : World ms sb to_string default_bucket → Bytes → Bytes
  unfolding parse_s3_path handle_list_objects get_object
  handle_get w path = get_at w (parse_s3_path path)

  abbrev pub put_answer :
      Status × World ms sb to_string default_bucket → Bytes × World ms sb to_string default_bucket
  put_answer (s, w) =
      if is_ok s then ([], w) else (error_response (codes "InternalError") s.message, w)

  abbrev put_at :
      ℕ
      → World ms sb to_string default_bucket
      → Bytes
      → Option (Bytes × Bytes)
      → Bytes × World ms sb to_string default_bucket
  put_at now w body none = (invalid_uri, w)
  put_at now w body (some (bucket, [])) = ([], w)
  put_at now w body (some (bucket, (c ∷ key))) =
      put_answer (put_object ms sb to_string default_bucket now w bucket (c ∷ key) body)

  unfoldable pub handle_put :
      ℕ
      → World ms sb to_string default_bucket
      → Bytes
      → Bytes
      → Bytes × World ms sb to_string default_bucket
  unfolding parse_s3_path put_object
  handle_put now w path body = put_at now w body (parse_s3_path path)

  abbrev attr_text : InodeAttr → Bytes
  attr_text attr =
      codes "{\"size\":"
      ++ (to_string attr.size
          ++ (codes ",\"mtime\":"
              ++ (to_string attr.mtime
                  ++ (codes ",\"etag\":" ++ (etag_of hex attr.size attr.mtime ++ codes "}")))))

  abbrev head_at : World ms sb to_string default_bucket → Option (Bytes × Bytes) → Bytes
  head_at w none = invalid_uri
  head_at w (some (bucket, [])) = []
  head_at w (some (bucket, (c ∷ key))) =
      after_call (head_object ms sb to_string default_bucket w bucket (c ∷ key))
        (failure (codes "NoSuchKey") (codes "The specified key does not exist.")) attr_text

  unfoldable pub handle_head : World ms sb to_string default_bucket → Bytes → Bytes
  unfolding parse_s3_path head_object
  handle_head w path = head_at w (parse_s3_path path)
