-- ===== src/Metadata/RocksdbStore/Keys.antt =====
-- When two keys of src/metadata/rocksdb_store.cpp are the same.
use native.Mathlib.Nat.{pow-suc}
use nimbus_store.Base.{
  ℕ, zero, suc, ◌/◌, ◌^◌, ◌<◌, [], ◌∷◌, ◌++◌, false, ◌&&◌, ◌==◌, ◌≡◌, ◌≢◌, refl, sym, ◌∙◌, arith,
  drop, drop-append, length, length-append,
}
use nimbus_store.Bytes.{Bytes, cmp, bytes_eq, starts_with}
use nimbus_store.Bytes.Order.{cmp-append-append}
use nimbus_store.Bytes.Words.{le_bytes, length-le_bytes}
use nimbus_store.Metadata.RocksdbStore.Values.{dentry_prefix, encode_dentry_key, encode_inode_key}

bytes_eq-le_bytes :
    (n a b : ℕ) → a < 256 ^ n → b < 256 ^ n → bytes_eq (le_bytes n a) (le_bytes n b) ≡ (a == b)
unfolding le_bytes cmp
bytes_eq-le_bytes zero a b h k = ground arith
bytes_eq-le_bytes (suc n) a b h k =
    let e =
      bytes_eq-le_bytes n (a / 256) (b / 256) (omega (arith, h, pow-suc 256 n))
        (omega (arith, k, pow-suc 256 n)) in
    ground (arith, e)

pub bytes_eq-encode_inode_key :
    (q p : ℕ)
    → q < 2 ^ 64
    → p < 2 ^ 64
    → bytes_eq (encode_inode_key q) (encode_inode_key p) ≡ (q == p)
unfolding encode_inode_key cmp
bytes_eq-encode_inode_key q p h k = ground (arith, bytes_eq-le_bytes 8 q p h k)

length-dentry_prefix : (p q : ℕ) → length (dentry_prefix p) ≡ length (dentry_prefix q)
length-dentry_prefix p q = omega (
  arith,
  length-append (le_bytes 8 q) (47 ∷ []),
  length-append (le_bytes 8 p) (47 ∷ []),
  length-le_bytes 8 q,
  length-le_bytes 8 p,
)

-- Two entries of directories have the same key exactly when parent and name are the same.
pub bytes_eq-encode_dentry_key :
    (q p : ℕ) (n m : Bytes)
    → q < 2 ^ 64
    → p < 2 ^ 64
    → bytes_eq (encode_dentry_key q n) (encode_dentry_key p m) ≡ (q == p && bytes_eq n m)
unfolding encode_dentry_key cmp
bytes_eq-encode_dentry_key q p n m h k =
    rw
      (
        cmp-append-append (dentry_prefix q) (dentry_prefix p) n m (length-dentry_prefix q p),
        cmp-append-append (le_bytes 8 q) (le_bytes 8 p) (47 ∷ []) (47 ∷ [])
            (length-le_bytes 8 q ∙ sym (length-le_bytes 8 p)),
      )
      (ground (arith, bytes_eq-le_bytes 8 q p h k))

starts_with-same : (p q x : Bytes) → length p ≡ length q → starts_with p (q ++ x) ≡ bytes_eq q p
unfolding starts_with cmp
starts_with-same [] [] x h = refl
starts_with-same [] (c ∷ q) x h = absurd (omega (arith, h))
starts_with-same (b ∷ p) [] x h = absurd (omega (arith, h))
starts_with-same (b ∷ p) (c ∷ q) x h = ground (arith, starts_with-same p q x (omega (arith, h)))

-- The entries of a directory are those whose keys have its prefix.
pub starts_with-encode_dentry_key :
    (p q : ℕ) (n : Bytes)
    → p < 2 ^ 64
    → q < 2 ^ 64
    → starts_with (dentry_prefix p) (encode_dentry_key q n) ≡ (q == p)
unfolding encode_dentry_key cmp
starts_with-encode_dentry_key p q n h k =
    starts_with-same (dentry_prefix p) (dentry_prefix q) n (length-dentry_prefix p q)
    ∙ rw
        (cmp-append-append (le_bytes 8 q) (le_bytes 8 p) (47 ∷ []) (47 ∷ [])
          (length-le_bytes 8 q ∙ sym (length-le_bytes 8 p)))
        (ground (arith, bytes_eq-le_bytes 8 q p k h))

pub drop-encode_dentry_key :
    (p q : ℕ) (n : Bytes) → drop (length (dentry_prefix p)) (encode_dentry_key q n) ≡ n
unfolding encode_dentry_key
drop-encode_dentry_key p q n = rw (length-dentry_prefix p q) (drop-append (dentry_prefix q) n)

-- Keys of different tags differ.
pub bytes_eq-tags : (t u : ℕ) (xs ys : Bytes) → t ≢ u → bytes_eq (t ∷ xs) (u ∷ ys) ≡ false
unfolding cmp
bytes_eq-tags t u xs ys h = ground (arith, h)
