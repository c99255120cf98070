-- ===== src/S3/Xml.antt =====
-- `S3XMLFormatter` of include/nebulastore/protocol/s3_xml.h. A stream of `<<` is the list of what
-- is written; the decimal forms of numbers are the output stream's.
pub mod Escaping
use nimbus_store.Base.{ℕ, List, [], ◌∷◌, ◌++◌, Bool, ◌==◌, if◌then◌else◌}
use nimbus_store.Base.Int.{ℤ}
use nimbus_store.Bytes.{Bytes, codes}
use nimbus_store.S3.Types.{BucketInfo, ObjectInfo, ListObjectsResult}

-- one round of the loop of `Escape`
unfoldable pub escape_char : ℕ → Bytes
escape_char c =
    if c == b'&'
    then codes "&amp;"
    else if c == b'<'
    then codes "&lt;"
    else if c == b'>'
    then codes "&gt;"
    else if c == b'"'
    then codes "&quot;"
    else c ∷ []

unfoldable pub escape : Bytes → Bytes
unfolding escape_char
escape [] = []
escape (c ∷ s) = escape_char c ++ escape s

abbrev pub written : List Bytes → Bytes
written [] = []
written (x ∷ xs) = x ++ written xs

abbrev pub xmlns : Bytes
xmlns = codes "http://s3.amazonaws.com/doc/2006-03-01/"

bucket_elements : List BucketInfo → Bytes
bucket_elements [] = []
bucket_elements (b ∷ rest) = written (
    codes "    <Bucket><Name>"
    ∷ escape b.name
    ∷ codes "</Name><CreationDate>"
    ∷ b.creation_date
    ∷ codes "</CreationDate></Bucket>\n"
    ∷ bucket_elements rest
    ∷ [])

unfoldable pub list_buckets_result : Bytes → Bytes → List BucketInfo → Bytes
unfolding bucket_elements escape
list_buckets_result owner_id owner_name buckets = written (
    codes "<?xml version=\"1.0\" encoding=\"UTF-8\"?>\n"
    ∷ codes "<ListAllMyBucketsResult xmlns=\""
    ∷ xmlns
    ∷ codes "\">\n"
    ∷ codes "  <Owner><ID>"
    ∷ escape owner_id
    ∷ codes "</ID><DisplayName>"
    ∷ escape owner_name
    ∷ codes "</DisplayName></Owner>\n"
    ∷ codes "  <Buckets>\n"
    ∷ bucket_elements buckets
    ∷ codes "  </Buckets>\n</ListAllMyBucketsResult>"
    ∷ [])

module _ (decimal : ℕ → Bytes) (decimal_int : ℤ → Bytes) where
  contents : List ObjectInfo → Bytes
  contents [] = []
  contents (obj ∷ rest) = written (
      codes "  <Contents>\n    <Key>"
      ∷ escape obj.key
      ∷ codes "</Key>\n    <LastModified>"
      ∷ obj.last_modified
      ∷ codes "</LastModified>\n    <ETag>\""
      ∷ obj.etag
      ∷ codes "\"</ETag>\n    <Size>"
      ∷ decimal obj.size
      ∷ codes "</Size>\n    <StorageClass>"
      ∷ obj.storage_class
      ∷ codes "</StorageClass>\n  </Contents>\n"
      ∷ contents rest
      ∷ [])

  common_prefixes : List Bytes → Bytes
  common_prefixes [] = []
  common_prefixes (p ∷ rest) = written (
      codes "  <CommonPrefixes><Prefix>"
      ∷ escape p
      ∷ codes "</Prefix></CommonPrefixes>\n"
      ∷ common_prefixes rest
      ∷ [])

  unfoldable pub list_bucket_result : ListObjectsResult → Bytes
  unfolding contents common_prefixes escape
  list_bucket_result r = written (
      codes "<?xml version=\"1.0\" encoding=\"UTF-8\"?>\n"
      ∷ codes "<ListBucketResult xmlns=\""
      ∷ xmlns
      ∷ codes "\">\n  <Name>"
      ∷ escape r.bucket_name
      ∷ codes "</Name>\n  <Prefix>"
      ∷ escape r.prefix
      ∷ codes "</Prefix>\n  <Marker>"
      ∷ escape r.marker
      ∷ codes "</Marker>\n  <MaxKeys>"
      ∷ decimal_int r.max_keys
      ∷ codes "</MaxKeys>\n  <IsTruncated>"
      ∷ (if r.is_truncated then codes "true" else codes "false")
      ∷ codes "</IsTruncated>\n"
      ∷ contents r.objects
      ∷ common_prefixes r.common_prefixes
      ∷ codes "</ListBucketResult>"
      ∷ [])
