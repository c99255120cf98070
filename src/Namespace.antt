-- ===== src/Namespace.antt =====
-- `PathConverter` of src/namespace/service.cpp: S3 names and POSIX names of one path.
pub mod Service
pub mod Reads
pub mod InMemory
use nimbus_store.Base.{
  ℕ, List, [], ◌∷◌, ◌++◌, Bool, true, false, Option, none, some, drop, ◌==◌, ◌≡◌, ◌≢◌, refl, arith,
  All, if◌then◌else◌, ltb, length, Option-cases, inl, inr, Bool-cases,
}
use nimbus_store.Bytes.{Bytes, codes, starts_with}
use nimbus_store.Bytes.Order.{starts_with-append}

abbrev pub slash : ℕ
slash = 47

-- `find('/')`: what stands before the first slash, and behind it
unfoldable pub cut_first : Bytes → Option (Bytes × Bytes)
cut_first [] = none
cut_first (c ∷ text) =
    if c == slash
    then some ([], text)
    else elim (cut_first text) [ some (before, behind) ↦ some (c ∷ before, behind) | none ↦ none ]

abbrev pub is_s3_path : Bytes → Bool
is_s3_path path = starts_with (codes "s3://") path

abbrev pub behind_bucket : Option (Bytes × Bytes) → Bytes
behind_bucket none = codes "/"
behind_bucket (some (bucket, key)) = slash ∷ key

unfoldable pub s3_to_posix : Bytes → Bytes
unfolding cut_first
s3_to_posix path = if is_s3_path path then behind_bucket (cut_first (drop 5 path)) else path

unfoldable pub posix_to_s3 : Bytes → Bytes → Bytes
posix_to_s3 default_bucket posix_path = codes "s3://" ++ (default_bucket ++ posix_path)

pub record ParsedPath : Type 0 where
  pub is_s3 : Bool
  pub bucket : Bytes
  pub key : Bytes
  pub posix_path : Bytes

abbrev pub parsed_s3 : Bytes → Option (Bytes × Bytes) → ParsedPath
parsed_s3 rest none = record { is_s3 = true; bucket = rest; key = []; posix_path = codes "/" }
parsed_s3 rest (some (b, k)) = record {
  is_s3 = true;
  bucket = b;
  key = k;
  posix_path = codes "/" ++ k;
}

unfoldable pub parse : Bytes → Bytes → ParsedPath
unfolding cut_first
parse default_bucket path =
    if is_s3_path path then parsed_s3 (drop 5 path) (cut_first (drop 5 path)) else record {
      is_s3 = false;
      bucket = default_bucket;
      key = if ltb 1 (length path) then drop 1 path else [];
      posix_path = path;
    }

pub cut_first-append :
    (bucket key : Bytes)
    → All (λ c. c ≢ slash) bucket
    → cut_first (bucket ++ slash ∷ key) ≡ some (bucket, key)
unfolding cut_first
cut_first-append [] key h = refl
cut_first-append (c ∷ bucket) key h =
    let e : (c == slash) ≡ false = ground (arith, h.0) in
    rw (e, cut_first-append bucket key h.1) refl

-- The POSIX path of a parsed path is the one that the conversion gives, for S3 names and for
-- others.
posix_path-parse :
    (default_bucket path : Bytes) → (parse default_bucket path).posix_path ≡ s3_to_posix path
unfolding parse s3_to_posix
posix_path-parse default_bucket path = elim (Bool-cases (is_s3_path path)) [
  | inr e ↦ rw e refl
  | inl e ↦ elim (Option-cases (cut_first (drop 5 path))) [
    | inl k ↦ rw (e, k) refl
    | inr (_, k) ↦ rw (e, k) refl
  ]
]

-- Let the default bucket have no slash. The S3 name of a POSIX path that starts with a slash is
-- parsed as one of the default bucket, with the rest of the path as key, and its POSIX path is the
-- path again.
parse-posix_to_s3 :
    (default_bucket key other : Bytes)
    → All (λ c. c ≢ slash) default_bucket
    → parse other (posix_to_s3 default_bucket (slash ∷ key))
      ≡ record { is_s3 = true; bucket = default_bucket; key = key; posix_path = slash ∷ key }
unfolding parse posix_to_s3
parse-posix_to_s3 default_bucket key other h =
    rw
      (
        starts_with-append (codes "s3://") (default_bucket ++ slash ∷ key),
        cut_first-append default_bucket key h,
      )
      refl
