-- ===== src/S3/Meta/BucketRoundTrip.antt =====
-- `BucketMeta::Decode` restores what `BucketMeta::Encode` wrote, whatever the object held before
-- and whatever follows.
use nimbus_store.Base.{ℕ, ◌%◌, ◌^◌, ◌<◌, ◌++◌, Bool, true, length, ◌≡◌, ap, append_assoc}
use nimbus_store.Bytes.{Bytes}
use nimbus_store.Bytes.Words.{le_bytes}
use nimbus_store.S3.Encoding.{put_u64, put_string}
use nimbus_store.S3.Encoding.Reads.{string_bytes}
use nimbus_store.S3.Meta.{BucketMeta, encode_bucket, decode_bucket}
use nimbus_store.S3.Meta.Decoding.{Reads-and}
use nimbus_store.S3.Meta.Fields.{Reads-version, Reads-string, Reads-u64}

-- The lengths and numbers have room in their words.
pub record BucketFits (m : BucketMeta) : Type 0 where
  pub name : length m.name < 2 ^ 32
  pub owner : length m.owner < 2 ^ 32
  pub creation_time : m.creation_time < 2 ^ 64
  pub object_count : m.object_count < 2 ^ 64
  pub total_size : m.total_size < 2 ^ 64
  pub region : length m.region < 2 ^ 32
  pub storage_class : length m.storage_class < 2 ^ 32

bucket_bytes : BucketMeta → Bytes
bucket_bytes m =
    le_bytes 4 1
    ++ (string_bytes m.name
        ++ (string_bytes m.owner
            ++ (le_bytes 8 (m.creation_time % 2 ^ 64)
                ++ (le_bytes 8 (m.object_count % 2 ^ 64)
                    ++ (le_bytes 8 (m.total_size % 2 ^ 64)
                        ++ (string_bytes m.region ++ string_bytes m.storage_class))))))

encode_bucket-eq : (m : BucketMeta) → encode_bucket m ≡ bucket_bytes m
unfolding encode_bucket bucket_bytes put_u64 put_string
encode_bucket-eq m = simp append_assoc

-- Decoding the encoding of a bucket's metadata succeeds and restores every field, whatever the
-- object held before and whatever bytes follow, if lengths are below 2^32 and numbers below 2^64.
pub decode-encode_bucket :
    (m old : BucketMeta) (junk : Bytes)
    → BucketFits m
    → decode_bucket (encode_bucket m ++ junk) old ≡ (true, m)
unfolding decode_bucket bucket_bytes
decode-encode_bucket m old junk fits =
    let reads = Reads-and Reads-version (
      Reads-and (Reads-string (λ s m. record m { name = s }) m.name fits.name) (
        Reads-and (Reads-string (λ s m. record m { owner = s }) m.owner fits.owner) (
          Reads-and
            (Reads-u64 (λ n m. record m { creation_time = n }) m.creation_time fits.creation_time)
            (Reads-and
              (Reads-u64 (λ n m. record m { object_count = n }) m.object_count fits.object_count)
              (Reads-and
                (Reads-u64 (λ n m. record m { total_size = n }) m.total_size fits.total_size)
                (Reads-and (Reads-string (λ s m. record m { region = s }) m.region fits.region) (
                  Reads-string (λ s m. record m { storage_class = s }) m.storage_class
                    fits.storage_class))))))) in
    ap (λ (t : Bool × BucketMeta × ℕ). (t.0, t.1))
      (reads.at (encode_bucket m ++ junk) old 0 junk
        (ap (λ (b : Bytes). b ++ junk) (encode_bucket-eq m)))
