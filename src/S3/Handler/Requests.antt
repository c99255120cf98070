-- ===== src/S3/Handler/Requests.antt =====
-- Whole requests: the router in front of the object handlers.
use nimbus_store.Base.{ℕ, [], ◌++◌, Bool, true, false, length, ◌≡◌, refl, ap, ◌∙◌}
use nimbus_store.Bytes.{Bytes, codes, bytes_eq, cmp, IsBytes}
use nimbus_store.S3.Backend.{MetadataBackend}
use nimbus_store.S3.Backend.Laws.{IsOrderedBackend}
use nimbus_store.S3.Meta.ObjectRoundTrip.{ObjectFits}
use nimbus_store.S3.Platform.{Platform, IsFileStore}
use nimbus_store.S3.Types.{S3Op, S3Request, S3Response, get_header}
use nimbus_store.S3.Router.{
  parse_request, parse_params, parse_query_string, determine_operation, operation,
}
use nimbus_store.S3.Router.Decoding.{ReadsHex, IsPlain, url_encode, parse_uri_lem}
use nimbus_store.S3.Handler.{replied, World, object_meta_of, handle, dispatch}
use nimbus_store.S3.Handler.Objects.{status_of, data_written, get-put}

-- "/bucket/key?query", with the bucket and the key percent-encoded
abbrev pub object_uri : (ℕ → Bool) → Bytes → Bytes → Bytes → Bytes
object_uri plain bucket key query =
    codes "/"
    ++ (url_encode plain bucket ++ (codes "/" ++ (url_encode plain key ++ (codes "?" ++ query))))

module _ (b : MetadataBackend) (o : IsOrderedBackend b) (p : Platform) (data_dir : Bytes)
    (reads : ReadsHex p.scan_hex) (plain : ℕ → Bool) (is_plain : IsPlain plain) (bucket key : Bytes)
    (bucket_bytes : IsBytes bucket) (key_bytes : IsBytes key)
    (bucket_named : bytes_eq bucket [] ≡ false) (key_named : bytes_eq key [] ≡ false) where
  -- the request that the router makes of one for an object
  abbrev routed : S3Request → Bytes → S3Op → S3Request
  routed req query op = record req {
    query_string = query;
    bucket_name = bucket;
    object_key = key;
    params = parse_params p.scan_hex (length query) query req.params;
    op = op;
  }

  parse_put :
      (req : S3Request) (query : Bytes)
      → req.uri ≡ object_uri plain bucket key query
      → req.method ≡ codes "PUT"
      → bytes_eq (get_header req (codes "x-amz-copy-source")) [] ≡ true
      → parse_request p.scan_hex req ≡ routed req query S3Op.put_object
  unfolding parse_request parse_query_string determine_operation operation cmp
  parse_put req query uri method no_copy =
      ap (λ (r : S3Request). determine_operation p.scan_hex (parse_query_string p.scan_hex r))
        (parse_uri_lem p.scan_hex reads plain is_plain req bucket key query bucket_bytes key_bytes
          uri)
      ∙ rw (method, bucket_named, key_named, no_copy) refl

  parse_get :
      (req : S3Request) (query : Bytes)
      → req.uri ≡ object_uri plain bucket key query
      → req.method ≡ codes "GET"
      → parse_request p.scan_hex req ≡ routed req query S3Op.get_object
  unfolding parse_request parse_query_string determine_operation operation cmp
  parse_get req query uri method =
      ap (λ (r : S3Request). determine_operation p.scan_hex (parse_query_string p.scan_hex r))
        (parse_uri_lem p.scan_hex reads plain is_plain req bucket key query bucket_bytes key_bytes
          uri)
      ∙ rw (method, bucket_named, key_named) refl

  -- Over a metadata backend that is an ordered map and files that are read back as they were
  -- written, let a PUT of "/bucket/key?query", that names no source to copy, with a bucket and a
  -- key that are not empty and percent-encoded, where "%", "+", "/" and "?" are never kept, and
  -- whose metadata fit their fields, be answered with 200 and its data file be written. Then a GET
  -- of the same bucket and key, with any query and any headers, is answered with 200 and the body
  -- of the PUT, and changes nothing; `sscanf` reads the number of two hexadecimal digits.
  pub handle-put_get :
      (f : IsFileStore p) (now later : ℕ) (w : World b p data_dir) (req req' : S3Request)
      (query query' : Bytes)
      → let put = record req { bucket_name = bucket; object_key = key } in
        let w' = (handle b p data_dir now w req).1 in
        req.uri ≡ object_uri plain bucket key query
        → req.method ≡ codes "PUT"
        → bytes_eq (get_header req (codes "x-amz-copy-source")) [] ≡ true
        → req'.uri ≡ object_uri plain bucket key query'
        → req'.method ≡ codes "GET"
        → ObjectFits (object_meta_of b p data_dir now put)
        → (data_written b o p data_dir w put).1 ≡ true
        → status_of (handle b p data_dir now w req).0 ≡ 200
        → (resp : S3Response) × (handle b p data_dir later w' req' ≡ (replied resp, w'))
          × (resp.status_code ≡ 200)
          × (resp.body ≡ req.body)
  unfolding handle dispatch
  handle-put_get f now later w req req' query query' uri method no_copy uri' method' =
      rw (parse_put req query uri method no_copy, parse_get req' query' uri' method')
        (λ fits written ok.
          let (resp, got, status, body, size, etag, time, type) =
            get-put b o p data_dir f now w (routed req query S3Op.put_object)
              (routed req' query' S3Op.get_object) fits written ok refl refl in
          (resp, got, status, body))
