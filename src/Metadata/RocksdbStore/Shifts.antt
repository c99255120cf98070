-- ===== src/Metadata/RocksdbStore/Shifts.antt =====
-- What the loops of src/metadata/rocksdb_store.cpp read of a word that was written.
use native.Mathlib.Nat.{
  pow-suc, mul_assoc, mul_comm, add-mul, mul-le-mul_right, pow-le-pow_right, mod-eq_of_lt,
}
use nimbus_store.Base.{
  ℕ, zero, suc, ◌+◌, ◌*◌, ◌/◌, ◌%◌, ◌-◌, ◌^◌, ◌<◌, ◌≤◌, [], ◌∷◌, ◌≡◌, refl, ap, sym, ◌∙◌, arith,
  All, length,
}
use nimbus_store.Bytes.{Bytes, IsBytes}
use nimbus_store.Bytes.Words.{le_bytes, of_le, of_le-le_bytes, le_bytes-IsBytes, length-le_bytes}
use nimbus_store.Metadata.RocksdbStore.Words.{or_bits, widen_char, char_part, word_part, read_parts}

-- Words without a common bit are added.
or_bits-add :
    (n k a c : ℕ) → a < 2 ^ k → a + c * 2 ^ k < 2 ^ n → or_bits n a (c * 2 ^ k) ≡ a + c * 2 ^ k
unfolding or_bits
or_bits-add zero k a c h w = omega (arith, h, w)
or_bits-add (suc n) zero a c h w =
    let e = or_bits-add n zero 0 (c / 2) (omega arith) (omega (arith, pow-suc 2 n)) in
    let x : c * 2 ^ zero / 2 ≡ c / 2 * 2 ^ zero = omega arith in
    let y : a / 2 ≡ 0 = omega (arith, h) in rw (x, y) (omega (arith, e, h))
or_bits-add (suc n) (suc k) a c h w =
    let double : c * 2 ^ suc k ≡ 2 * (c * 2 ^ k) =
      rw (pow-suc 2 k) (sym (mul_assoc c (2 ^ k) 2) ∙ mul_comm (c * 2 ^ k) 2) in
    let half : c * 2 ^ suc k / 2 ≡ c * 2 ^ k = omega (arith, double) in
    let e =
      or_bits-add n k (a / 2) c (omega (arith, pow-suc 2 k)) (omega (arith, double, pow-suc 2 n)) in
    rw half (omega (arith, double, e))

-- A word with all bits from a place on set stays as it is, where nothing below the place is added.
or_bits-ones :
    (n k a c : ℕ)
    → a < 2 ^ k
    → k ≤ n
    → c * 2 ^ k < 2 ^ n
    → or_bits n (a + (2 ^ n - 2 ^ k)) (c * 2 ^ k) ≡ a + (2 ^ n - 2 ^ k)
unfolding or_bits
or_bits-ones zero zero a c h l w = omega (arith, h)
or_bits-ones zero (suc k) a c h l w = absurd (omega (arith, l))
or_bits-ones (suc n) zero a c h l w =
    let positive : 1 ≤ 2 ^ n = pow-le-pow_right (omega arith) {i = 0} {j = n} (omega arith) in
    let e =
      or_bits-ones n zero 0 (c / 2) (omega arith) (omega arith) (omega (arith, w, pow-suc 2 n)) in
    let x : c * 2 ^ zero / 2 ≡ c / 2 * 2 ^ zero = omega arith in
    let y : (a + (2 ^ suc n - 2 ^ zero)) / 2 ≡ 0 + (2 ^ n - 2 ^ zero) =
      omega (arith, h, pow-suc 2 n, positive) in
    rw (x, y) (omega (arith, e, h, pow-suc 2 n, positive))
or_bits-ones (suc n) (suc k) a c h l w =
    let double : c * 2 ^ suc k ≡ 2 * (c * 2 ^ k) =
      rw (pow-suc 2 k) (sym (mul_assoc c (2 ^ k) 2) ∙ mul_comm (c * 2 ^ k) 2) in
    let order : 2 ^ k ≤ 2 ^ n = pow-le-pow_right (omega arith) (omega (arith, l)) in
    let x : c * 2 ^ suc k / 2 ≡ c * 2 ^ k = omega (arith, double) in
    let y : (a + (2 ^ suc n - 2 ^ suc k)) / 2 ≡ a / 2 + (2 ^ n - 2 ^ k) =
      omega (arith, pow-suc 2 n, pow-suc 2 k, order) in
    let e =
      or_bits-ones n k (a / 2) c (omega (arith, h, pow-suc 2 k)) (omega (arith, l))
        (omega (arith, w, double, pow-suc 2 n)) in
    rw (x, y) (omega (arith, e, double, pow-suc 2 n, pow-suc 2 k, order))

abbrev pub IsPlain : (ℕ → ℕ → ℕ) → ℕ → Bytes → Type 0
IsPlain part i [] = Unit
IsPlain part i (b ∷ bs) = (b < 256) × (part i b ≡ b * 2 ^ (i * 8)) × IsPlain part (suc i) bs

next_place : (i : ℕ) → 2 ^ (suc i * 8) ≡ 256 * 2 ^ (i * 8)
next_place i =
    let e : suc i * 8 ≡ suc (suc (suc (suc (suc (suc (suc (suc (i * 8)))))))) = omega arith in
    ap (λ (n : ℕ). 2 ^ n) e
    ∙ omega (
      arith,
      pow-suc 2 (i * 8),
      pow-suc 2 (suc (i * 8)),
      pow-suc 2 (suc (suc (i * 8))),
      pow-suc 2 (suc (suc (suc (i * 8)))),
      pow-suc 2 (suc (suc (suc (suc (i * 8))))),
      pow-suc 2 (suc (suc (suc (suc (suc (i * 8)))))),
      pow-suc 2 (suc (suc (suc (suc (suc (suc (i * 8))))))),
      pow-suc 2 (suc (suc (suc (suc (suc (suc (suc (i * 8)))))))),
    )

below_place : (i b : ℕ) → b < 256 → b * 2 ^ (i * 8) + 2 ^ (i * 8) ≤ 2 ^ (suc i * 8)
below_place i b h =
    let step : b + 1 ≤ 256 = omega (arith, h) in
    omega (arith, next_place i, mul-le-mul_right (2 ^ (i * 8)) step, add-mul b 1 (2 ^ (i * 8)))

-- Where each byte is put in its place, the loop adds them up.
pub read_parts-IsPlain :
    (part : ℕ → ℕ → ℕ) (bits i acc : ℕ) (bs : Bytes)
    → IsPlain part i bs
    → acc < 2 ^ (i * 8)
    → acc + of_le bs * 2 ^ (i * 8) < 2 ^ bits
    → read_parts part bits i acc bs ≡ acc + of_le bs * 2 ^ (i * 8)
unfolding read_parts of_le
read_parts-IsPlain part bits i acc [] p h w = omega arith
read_parts-IsPlain part bits i acc (b ∷ bs) p h w =
    let spread : (b + 256 * of_le bs) * 2 ^ (i * 8) ≡ b * 2 ^ (i * 8) + of_le bs * 2 ^ (suc i * 8) =
      rw
        (
          next_place i,
          add-mul b (256 * of_le bs) (2 ^ (i * 8)),
          mul_comm 256 (of_le bs),
          mul_assoc (of_le bs) 256 (2 ^ (i * 8)),
        )
        refl in
    let one : or_bits bits acc (b * 2 ^ (i * 8)) ≡ acc + b * 2 ^ (i * 8) =
      or_bits-add bits (i * 8) acc b h (omega (arith, w, spread)) in
    rw (p.1, one)
      (read_parts-IsPlain part bits (suc i) (acc + b * 2 ^ (i * 8)) bs p.2
          (omega (arith, h, below_place i b p.0)) (omega (arith, w, spread))
        ∙ omega (arith, spread))

-- the bytes of a word of 32 bits
word-IsPlain : (i : ℕ) (bs : Bytes) → IsBytes bs → i + length bs ≤ 4 → IsPlain word_part i bs
unfolding word_part
word-IsPlain i [] h w = tt
word-IsPlain i (b ∷ bs) h w =
    let top : 2 ^ (suc i * 8) ≤ 2 ^ 32 =
      pow-le-pow_right (omega arith) {i = suc i * 8} {j = 32} (omega (arith, w)) in
    let space : 1 ≤ 2 ^ (i * 8) = pow-le-pow_right (omega arith) {i = 0} (omega arith) in
    (
      h.0,
      mod-eq_of_lt (omega (arith, top, space, below_place i b h.0)),
      word-IsPlain (suc i) bs h.1 (omega (arith, w)),
    )

-- the bytes of a word of 64 bits, without the sign bit
char-IsPlain :
    (i : ℕ) (bs : Bytes) → All (λ b. b < 128) bs → i + length bs ≤ 8 → IsPlain char_part i bs
unfolding char_part
char-IsPlain i [] h w = tt
char-IsPlain i (b ∷ bs) h w =
    let top : 2 ^ (suc i * 8) ≤ 2 ^ 64 =
      pow-le-pow_right (omega arith) {i = suc i * 8} {j = 64} (omega (arith, w)) in
    let space : 1 ≤ 2 ^ (i * 8) = pow-le-pow_right (omega arith) {i = 0} (omega arith) in
    let small : b < 256 = omega (arith, h.0) in
    let plain : widen_char b ≡ b = ground (arith, h.0) in
    (
      small,
      rw plain (mod-eq_of_lt (omega (arith, top, space, below_place i b small))),
      char-IsPlain (suc i) bs h.1 (omega (arith, w)),
    )

-- A word of 32 bits is read as it was written.
pub read_word : (v : ℕ) → v < 2 ^ 32 → read_parts word_part 32 0 0 (le_bytes 4 v) ≡ v
read_word v h =
    read_parts-IsPlain word_part 32 0 0 (le_bytes 4 v)
      (word-IsPlain 0 (le_bytes 4 v) (le_bytes-IsBytes 4 v) (omega (arith, length-le_bytes 4 v)))
      (omega arith) (omega (arith, of_le-le_bytes 4 v h, h))
    ∙ omega (arith, of_le-le_bytes 4 v h)

-- So is one of 64 bits of which every byte is below 128.
pub read_char_word :
    (v : ℕ)
    → v < 2 ^ 64
    → All (λ b. b < 128) (le_bytes 8 v)
    → read_parts char_part 64 0 0 (le_bytes 8 v) ≡ v
read_char_word v h low =
    read_parts-IsPlain char_part 64 0 0 (le_bytes 8 v)
      (char-IsPlain 0 (le_bytes 8 v) low (omega (arith, length-le_bytes 8 v))) (omega arith)
      (omega (arith, of_le-le_bytes 8 v h, h))
    ∙ omega (arith, of_le-le_bytes 8 v h)

-- Once the bits from the eighth on are set, they stay.
read_parts-ones :
    (i a : ℕ) (bs : Bytes)
    → a < 256
    → read_parts char_part 64 (suc i) (a + (2 ^ 64 - 256)) bs ≡ a + (2 ^ 64 - 256)
unfolding read_parts char_part
read_parts-ones i a [] h = refl
read_parts-ones i a (b ∷ bs) h =
    let x = widen_char b * 2 ^ (i * 8) in
    let whole : widen_char b * 2 ^ (suc i * 8) % 2 ^ 64 ≡ x % 2 ^ 56 * 2 ^ 8 =
      rw
        (next_place i, mul_comm 256 (2 ^ (i * 8)), sym (mul_assoc (widen_char b) (2 ^ (i * 8)) 256))
        (omega arith) in
    rw (whole, or_bits-ones 64 8 a (x % 2 ^ 56) h (omega arith) (omega arith))
      (read_parts-ones (suc i) a bs h)

read_parts-cons :
    (part : ℕ → ℕ → ℕ) (bits i acc b : ℕ) (bs : Bytes)
    → read_parts part bits i acc (b ∷ bs)
      ≡ read_parts part bits (suc i) (or_bits bits acc (part i b)) bs
unfolding read_parts
read_parts-cons part bits i acc b bs = refl

read_parts-sign :
    (b : ℕ) (bs : Bytes)
    → 128 ≤ b
    → b < 256
    → read_parts char_part 64 0 0 (b ∷ bs) ≡ b + (2 ^ 64 - 256)
unfolding char_part
read_parts-sign b bs h w =
    let wide : widen_char b * 2 ^ (0 * 8) % 2 ^ 64 ≡ (b + (2 ^ 64 - 256)) * 2 ^ 0 = ground arith in
    let first : or_bits 64 0 ((b + (2 ^ 64 - 256)) * 2 ^ 0) ≡ b + (2 ^ 64 - 256) =
      or_bits-add 64 0 0 (b + (2 ^ 64 - 256)) (omega arith) (omega arith) ∙ omega arith in
    read_parts-cons char_part 64 0 0 b bs ∙ rw (wide, first) (read_parts-ones 0 b bs w)

-- A word of 64 bits of which the lowest byte is 128 or more is read as one of which all bits from
-- the eighth on are set.
pub read_char_word-sign :
    (v : ℕ) → 128 ≤ v % 256 → read_parts char_part 64 0 0 (le_bytes 8 v) ≡ v % 256 + (2 ^ 64 - 256)
unfolding le_bytes
read_char_word-sign v h = read_parts-sign (v % 256) (le_bytes 7 (v / 256)) h (omega arith)

or_bits-lt : (n a b : ℕ) → or_bits n a b < 2 ^ n
unfolding or_bits
or_bits-lt zero a b = omega arith
or_bits-lt (suc n) a b = omega (arith, or_bits-lt n (a / 2) (b / 2), pow-suc 2 n)

-- What is read is a word, whatever the parts are.
pub read_parts-lt :
    (part : ℕ → ℕ → ℕ) (bits i acc : ℕ) (bs : Bytes)
    → acc < 2 ^ bits
    → read_parts part bits i acc bs < 2 ^ bits
unfolding read_parts
read_parts-lt part bits i acc [] h = h
read_parts-lt part bits i acc (b ∷ bs) h =
    read_parts-lt part bits (suc i) (or_bits bits acc (part i b)) bs
      (or_bits-lt bits acc (part i b))
