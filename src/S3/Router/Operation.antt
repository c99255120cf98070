-- ===== src/S3/Router/Operation.antt =====
-- What the operation of a request says of its bucket and key.
use nimbus_store.Base.{[], true, false, is_some, ◌≡◌}
use nimbus_store.Bytes.{codes, bytes_eq}
use nimbus_store.OrderedMap.{find}
use nimbus_store.S3.Types.{S3Op, S3Request, get_header}

-- The method, the names and the marks of the requests that an operation is for.
abbrev pub Targets : S3Op → S3Request → Type 0
Targets S3Op.list_buckets req =
    (bytes_eq req.method (codes "GET") ≡ true) × (bytes_eq req.bucket_name [] ≡ true)
Targets S3Op.create_bucket req =
    (bytes_eq req.method (codes "PUT") ≡ true)
    × (bytes_eq req.bucket_name [] ≡ false)
    × (bytes_eq req.object_key [] ≡ true)
Targets S3Op.delete_bucket req =
    (bytes_eq req.method (codes "DELETE") ≡ true)
    × (bytes_eq req.bucket_name [] ≡ false)
    × (bytes_eq req.object_key [] ≡ true)
Targets S3Op.head_bucket req =
    (bytes_eq req.method (codes "HEAD") ≡ true)
    × (bytes_eq req.bucket_name [] ≡ false)
    × (bytes_eq req.object_key [] ≡ true)
Targets S3Op.list_objects req =
    (bytes_eq req.method (codes "GET") ≡ true)
    × (bytes_eq req.bucket_name [] ≡ false)
    × (bytes_eq req.object_key [] ≡ true)
Targets S3Op.list_objects_v2 req =
    (bytes_eq req.method (codes "GET") ≡ true)
    × (bytes_eq req.bucket_name [] ≡ false)
    × (bytes_eq req.object_key [] ≡ true)
Targets S3Op.get_object req =
    (bytes_eq req.method (codes "GET") ≡ true)
    × (bytes_eq req.bucket_name [] ≡ false)
    × (bytes_eq req.object_key [] ≡ false)
Targets S3Op.put_object req =
    (bytes_eq req.method (codes "PUT") ≡ true)
    × (bytes_eq req.bucket_name [] ≡ false)
    × (bytes_eq req.object_key [] ≡ false)
    × (bytes_eq (get_header req (codes "x-amz-copy-source")) [] ≡ true)
Targets S3Op.copy_object req =
    (bytes_eq req.method (codes "PUT") ≡ true)
    × (bytes_eq req.bucket_name [] ≡ false)
    × (bytes_eq req.object_key [] ≡ false)
    × (bytes_eq (get_header req (codes "x-amz-copy-source")) [] ≡ false)
Targets S3Op.delete_object req =
    (bytes_eq req.method (codes "DELETE") ≡ true)
    × (bytes_eq req.bucket_name [] ≡ false)
    × (bytes_eq req.object_key [] ≡ false)
Targets S3Op.head_object req =
    (bytes_eq req.method (codes "HEAD") ≡ true)
    × (bytes_eq req.bucket_name [] ≡ false)
    × (bytes_eq req.object_key [] ≡ false)
Targets S3Op.init_multipart req =
    (bytes_eq req.method (codes "POST") ≡ true)
    × (is_some (find (codes "uploads") req.params) ≡ true)
Targets S3Op.complete_multipart req =
    (bytes_eq req.method (codes "POST") ≡ true)
    × (is_some (find (codes "uploads") req.params) ≡ false)
    × (is_some (find (codes "uploadId") req.params) ≡ true)
Targets _ req = Unit
