-- ===== src/Gateway/Paths.antt =====
-- `ParseS3Path` of src/protocol/s3_gateway.cpp, and the paths of its objects.
use nimbus_store.Base.{
  ℕ, [], ◌∷◌, ◌++◌, Option, none, some, ◌==◌, if◌then◌else◌, ◌≡◌, ◌≢◌, refl, All,
}
use nimbus_store.Bytes.{Bytes, codes}
use nimbus_store.Namespace.{slash, cut_first, cut_first-append}

-- the bucket and the key, where the bucket is not empty
abbrev named : Bytes → Bytes → Option (Bytes × Bytes)
named [] key = none
named (c ∷ bucket) key = some (c ∷ bucket, key)

abbrev split_at : Bytes → Option (Bytes × Bytes) → Option (Bytes × Bytes)
split_at rest none = named rest []
split_at rest (some (bucket, key)) = named bucket key

unfoldable pub parse_s3_path : Bytes → Option (Bytes × Bytes)
unfolding cut_first
parse_s3_path [] = none
parse_s3_path (c ∷ rest) = if c == slash then split_at rest (cut_first rest) else none

-- `"/" + bucket + "/" + key`
abbrev pub object_path : Bytes → Bytes → Bytes
object_path bucket key = codes "/" ++ (bucket ++ (codes "/" ++ key))

-- Let a bucket be not empty and without slashes. The path of an object in it, whatever its key,
-- is parsed as the bucket and the key.
pub parse_s3_path-object_path :
    (c : ℕ) (bucket key : Bytes)
    → All (λ b. b ≢ slash) (c ∷ bucket)
    → parse_s3_path (object_path (c ∷ bucket) key) ≡ some (c ∷ bucket, key)
unfolding parse_s3_path
parse_s3_path-object_path c bucket key h = rw (cut_first-append (c ∷ bucket) key h) refl
