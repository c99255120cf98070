-- ===== src/Engine/Keys.antt =====
-- The keys of `KVMetaEngine`: a tag, a word of eight bytes, and what follows.
use native.Mathlib.Omega.{arith}
use nimbus_store.Base.{
  ℕ, ◌+◌, ◌^◌, ◌<◌, [], ◌∷◌, ◌++◌, false, ◌&&◌, not, ◌==◌, compare, ◌≡◌, ◌≢◌, sym, ◌∙◌,
}
use nimbus_store.Bytes.{Bytes, cmp, bytes_eq, bytes_lt}
use nimbus_store.Bytes.Order.{cmp-append-append, and_then}
use nimbus_store.Bytes.Words.{length-be_bytes, cmp-be_bytes}
use nimbus_store.Engine.Codec.{encode_u64, inode_key, dentry_key}

abbrev pub key : ℕ → ℕ → Bytes → Bytes
key tag v rest = tag ∷ (encode_u64 v ++ rest)

-- A key that the engine writes.
abbrev pub IsKey : Bytes → Type 0
IsKey k = (tag : ℕ) × (v : ℕ) × (rest : Bytes) × (v < 2 ^ 64) × (k ≡ key tag v rest)

pub cmp-key :
    (t u v w : ℕ) (xs ys : Bytes)
    → v < 2 ^ 64
    → w < 2 ^ 64
    → cmp (key t v xs) (key u w ys) ≡ and_then (compare t u) (and_then (compare v w) (cmp xs ys))
unfolding cmp
cmp-key t u v w xs ys h k = ground (
  arith,
  cmp-append-append (encode_u64 v) (encode_u64 w) xs ys
      (length-be_bytes 8 v ∙ sym (length-be_bytes 8 w)),
  cmp-be_bytes 8 v w h k,
)

-- Between the prefix of a word and that of the next one lie the keys of that word, and no other.
pub within_word :
    (t u v w : ℕ) (xs : Bytes)
    → v < 2 ^ 64
    → w + 1 < 2 ^ 64
    → (not (bytes_lt (key t v xs) (key u w [])) && bytes_lt (key t v xs) (key u (w + 1) []))
      ≡ (t == u && v == w)
unfolding cmp
within_word t u v w [] h k =
    rw (cmp-key t u v w [] [] h (omega arith), cmp-key t u v (w + 1) [] [] h k) (ground arith)
within_word t u v w (x ∷ xs) h k =
    rw (cmp-key t u v w (x ∷ xs) [] h (omega arith), cmp-key t u v (w + 1) (x ∷ xs) [] h k)
      (ground arith)

-- Two entries of directories have the same key exactly when parent and name are the same.
pub bytes_eq-dentry_key :
    (q p : ℕ) (n m : Bytes)
    → q < 2 ^ 64
    → p < 2 ^ 64
    → bytes_eq (dentry_key q n) (dentry_key p m) ≡ (q == p && bytes_eq n m)
bytes_eq-dentry_key q p n m h k = rw (cmp-key 68 68 q p n m h k) (ground arith)

pub bytes_eq-inode_key :
    (q p : ℕ) → q < 2 ^ 64 → p < 2 ^ 64 → bytes_eq (inode_key q) (inode_key p) ≡ (q == p)
unfolding cmp
bytes_eq-inode_key q p h k = ground (arith, cmp-be_bytes 8 q p h k)

-- Keys of different tags differ.
pub bytes_eq-tag : (t u : ℕ) (xs ys : Bytes) → t ≢ u → bytes_eq (t ∷ xs) (u ∷ ys) ≡ false
unfolding cmp
bytes_eq-tag t u xs ys h = ground (arith, h)
