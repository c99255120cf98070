-- ===== src/Bytes/Words.antt =====
-- Words as bytes, least significant byte first (`memcpy` on a little-endian machine and the
-- shifting loops of the store) and most significant byte first.
use native.Mathlib.Nat.{pow-suc}
use nimbus_store.Base.{
  ℕ, zero, suc, ◌+◌, ◌*◌, ◌/◌, ◌%◌, ◌^◌, ◌<◌, [], ◌∷◌, ◌++◌, ◌≡◌, refl, sym, ap, ◌∙◌, arith, length,
  length-append, All-append, ◌≤◌, compare,
}
use nimbus_store.Bytes.{Bytes, IsBytes, cmp}
use nimbus_store.Bytes.Order.{cmp-append-append}

unfoldable pub le_bytes : ℕ → ℕ → Bytes
le_bytes zero v = []
le_bytes (suc n) v = v % 256 ∷ le_bytes n (v / 256)

unfoldable pub of_le : Bytes → ℕ
of_le [] = 0
of_le (b ∷ bs) = b + 256 * of_le bs

pub length-le_bytes : (n v : ℕ) → length (le_bytes n v) ≡ n
unfolding le_bytes
length-le_bytes zero v = refl
length-le_bytes (suc n) v = ap suc (length-le_bytes n (v / 256))

pub le_bytes-IsBytes : (n v : ℕ) → IsBytes (le_bytes n v)
unfolding le_bytes
le_bytes-IsBytes zero v = tt
le_bytes-IsBytes (suc n) v = (omega arith, le_bytes-IsBytes n (v / 256))

div_bound : (n v : ℕ) → v < 256 ^ suc n → v / 256 < 256 ^ n
div_bound n v h = let k = pow-suc 256 n in omega (arith, k)

pub of_le-le_bytes : (n v : ℕ) → v < 256 ^ n → of_le (le_bytes n v) ≡ v
unfolding le_bytes of_le
of_le-le_bytes zero v h = omega arith
of_le-le_bytes (suc n) v h = omega (arith, of_le-le_bytes n (v / 256) (div_bound n v h))

pub of_le-lt : (bs : Bytes) → IsBytes bs → of_le bs < 256 ^ length bs
unfolding of_le
of_le-lt [] h = omega arith
of_le-lt (b ∷ bs) h = let k = pow-suc 256 (length bs) in omega (arith, k, of_le-lt bs h.1)

-- Most significant byte first: the loop of `EncodeU64` writes the last byte and divides.
unfoldable pub be_bytes : ℕ → ℕ → Bytes
be_bytes zero v = []
be_bytes (suc n) v = be_bytes n (v / 256) ++ v % 256 ∷ []

-- The loop of `DecodeU64`: `v = (v << 8) | byte`, in 64 bits.
unfoldable pub of_be : ℕ → Bytes → ℕ
of_be v [] = v
of_be v (b ∷ bs) = of_be (v * 256 % 2 ^ 64 + b) bs

pub length-be_bytes : (n v : ℕ) → length (be_bytes n v) ≡ n
unfolding be_bytes
length-be_bytes zero v = refl
length-be_bytes (suc n) v =
    omega (arith, length-append (be_bytes n (v / 256)) (v % 256 ∷ []), length-be_bytes n (v / 256))

pub be_bytes-IsBytes : (n v : ℕ) → IsBytes (be_bytes n v)
unfolding be_bytes
be_bytes-IsBytes zero v = tt
be_bytes-IsBytes (suc n) v =
    All-append _ (be_bytes n (v / 256)) (v % 256 ∷ []) (be_bytes-IsBytes n (v / 256)) (omega arith)

of_be-append : (v : ℕ) (xs ys : Bytes) → of_be v (xs ++ ys) ≡ of_be (of_be v xs) ys
unfolding of_be
of_be-append v [] ys = refl
of_be-append v (x ∷ xs) ys = of_be-append (v * 256 % 2 ^ 64 + x) xs ys

pub of_be-be_bytes : (n v : ℕ) → v < 256 ^ n → 256 ^ n ≤ 2 ^ 64 → of_be 0 (be_bytes n v) ≡ v
unfolding be_bytes of_be
of_be-be_bytes zero v h w = omega arith
of_be-be_bytes (suc n) v h w =
    let k = pow-suc 256 n in
    let ih = of_be-be_bytes n (v / 256) (div_bound n v h) (omega (arith, k)) in
    of_be-append 0 (be_bytes n (v / 256)) (v % 256 ∷ []) ∙ omega (arith, ih, k)

-- Compared as strings, such encodings are in the order of the numbers.
pub cmp-be_bytes :
    (n a b : ℕ) → a < 256 ^ n → b < 256 ^ n → cmp (be_bytes n a) (be_bytes n b) ≡ compare a b
unfolding be_bytes cmp
cmp-be_bytes zero a b h k = ground arith
cmp-be_bytes (suc n) a b h k =
    cmp-append-append (be_bytes n (a / 256)) (be_bytes n (b / 256)) (a % 256 ∷ []) (b % 256 ∷ [])
      (length-be_bytes n (a / 256) ∙ sym (length-be_bytes n (b / 256)))
    ∙ ground (arith, cmp-be_bytes n (a / 256) (b / 256) (div_bound n a h) (div_bound n b k))
