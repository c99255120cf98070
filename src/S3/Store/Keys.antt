-- ===== src/S3/Store/Keys.antt =====
-- The keys of different records differ: `BucketKey` and the other three of `S3MetadataStore`.
use nimbus_store.Base.{[], ◌∷◌, ◌++◌, false, All, ◌≡◌, ◌≢◌, refl, arith}
use nimbus_store.Bytes.{Bytes, codes, bytes_eq, cmp}
use nimbus_store.Bytes.Order.{append_cancel, cmp→eq}
use nimbus_store.S3.Store.{bucket_key, bucket_list_key, object_key, object_list_key}

abbrev pub SlashFree : Bytes → Type 0
SlashFree = All (λ c. c ≢ b'/')

cut :
    (b c k l : Bytes)
    → SlashFree b
    → SlashFree c
    → b ++ (codes "/" ++ k) ≡ c ++ (codes "/" ++ l)
    → (b ≡ c) × (k ≡ l)
cut [] [] k l p q e = (refl, cc)
cut [] (y ∷ c) k l p q e = absurd (q.0 (cc))
cut (x ∷ b) [] k l p q e = absurd (p.0 (cc))
cut (x ∷ b) (y ∷ c) k l p q e = let (same, rest) = cut b c k l p.1 q.1 (cc) in (cc, rest)

-- If neither bucket name has a slash, objects with the same key in the database are in the same
-- bucket under the same name.
pub object_key_injective :
    (b c k l : Bytes)
    → SlashFree b
    → SlashFree c
    → object_key b k ≡ object_key c l
    → (b ≡ c) × (k ≡ l)
object_key_injective b c k l p q e =
    cut b c k l p q (append_cancel (codes "O:") (b ++ (codes "/" ++ k)) (c ++ (codes "/" ++ l)) e)

module _ (a b k l : Bytes) where
  pub object_key-ne-list_key : bytes_eq (object_key a k) (object_list_key b l) ≡ false
  unfolding cmp
  object_key-ne-list_key = refl

  pub list_key-ne-object_key : bytes_eq (object_list_key a k) (object_key b l) ≡ false
  unfolding cmp
  list_key-ne-object_key = refl

module _ (a b k : Bytes) where
  pub bucket_key-ne-object_key : bytes_eq (bucket_key a) (object_key b k) ≡ false
  unfolding cmp
  bucket_key-ne-object_key = refl

  pub bucket_key-ne-object_list_key : bytes_eq (bucket_key a) (object_list_key b k) ≡ false
  unfolding cmp
  bucket_key-ne-object_list_key = refl

  pub object_key-ne-bucket_key : bytes_eq (object_key b k) (bucket_key a) ≡ false
  unfolding cmp
  object_key-ne-bucket_key = refl

  pub object_key-ne-bucket_list_key : bytes_eq (object_key b k) (bucket_list_key a) ≡ false
  unfolding cmp
  object_key-ne-bucket_list_key = refl

  pub object_list_key-ne-bucket_key : bytes_eq (object_list_key b k) (bucket_key a) ≡ false
  unfolding cmp
  object_list_key-ne-bucket_key = refl

  pub object_list_key-ne-bucket_list_key :
      bytes_eq (object_list_key b k) (bucket_list_key a) ≡ false
  unfolding cmp
  object_list_key-ne-bucket_list_key = refl

module _ (a b : Bytes) where
  pub bucket_key-ne-list_key : bytes_eq (bucket_key a) (bucket_list_key b) ≡ false
  unfolding cmp
  bucket_key-ne-list_key = refl

  pub list_key-ne-bucket_key : bytes_eq (bucket_list_key a) (bucket_key b) ≡ false
  unfolding cmp
  list_key-ne-bucket_key = refl

pub bytes_eq_of_ne : (a b : Bytes) → a ≢ b → bytes_eq a b ≡ false
bytes_eq_of_ne a b h = ground (arith, cmp→eq a b)

-- Two objects have the same key exactly when they have the same key for listings.
pub list_key-eq-object_key :
    (a b k l : Bytes)
    → bytes_eq (object_list_key a k) (object_list_key b l)
      ≡ bytes_eq (object_key a k) (object_key b l)
unfolding cmp
list_key-eq-object_key a b k l = refl
