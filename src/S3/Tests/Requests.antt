-- ===== src/S3/Tests/Requests.antt =====
-- A PUT and a GET of an object from their URIs on.
use nimbus_store.Base.{[], ◌≡◌, refl, arith}
use nimbus_store.Bytes.{Bytes, codes, cmp}
use nimbus_store.OrderedMap.{find}
use nimbus_store.S3.Platform.{Platform, IsFileStore}
use nimbus_store.S3.Types.{S3Request, S3Response}
use nimbus_store.S3.Router.{
  parse_request, parse_uri, parse_params, parse_query_string, determine_operation, operation,
  find_char, parameter, add_param, url_decode, split_query, without_slash, split_path,
}
use nimbus_store.S3.Router.Decoding.{url_encode}
use nimbus_store.S3.Handler.{World, replied, handle, dispatch}
use nimbus_store.S3.Handler.Objects.{status_of}
use nimbus_store.S3.Handler.Requests.{handle-put_get}
use nimbus_store.S3.Tests.{
  program, backend, backend_laws, files, files_laws, created, request, request_fits,
}
use nimbus_store.S3.Tests.Routes.{scan_two, scan_two-ReadsHex, letters, letters-IsPlain}

abbrev dir : Bytes
dir = codes "/srv"

abbrev readers : Platform
readers = record files { scan_hex = scan_two }

readers_laws : IsFileStore readers
readers_laws = record { read-write = files_laws.read-write; read-remove = files_laws.read-remove }

abbrev with_bucket : World backend readers dir
with_bucket = record { store = created.store; fs = created.fs }

abbrev put_request : S3Request
put_request = record request { uri = codes "/b/k?x=1" }

abbrev get_request : S3Request
get_request = record request { method = codes "GET"; uri = codes "/b/k?" }

put_run : status_of (handle backend readers dir 8 with_bucket put_request).0 ≡ 200
unfolding program handle dispatch parse_request parse_uri parse_params parse_query_string
    determine_operation operation find_char parameter add_param url_decode split_query without_slash
    split_path
put_run = refl

handle-put_get_example :
    let w' = (handle backend readers dir 8 with_bucket put_request).1 in
    (resp : S3Response) × (handle backend readers dir 9 w' get_request ≡ (replied resp, w'))
    × (resp.status_code ≡ 200)
    × (resp.body ≡ codes "hello")
unfolding cmp url_encode find
handle-put_get_example =
    handle-put_get backend backend_laws readers dir scan_two-ReadsHex letters letters-IsPlain
      (codes "b") (codes "k") (omega arith) (omega arith) refl refl readers_laws 8 9 with_bucket
      put_request get_request (codes "x=1") [] refl refl refl refl refl request_fits refl put_run
