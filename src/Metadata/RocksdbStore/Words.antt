-- ===== src/Metadata/RocksdbStore/Words.antt =====
-- The loops of src/metadata/rocksdb_store.cpp that read a word, byte by byte: what is ORed to the
-- word depends on the cast. `static_cast<uint64_t>` of a `char`, which is signed here, extends its
-- sign; a `uint8_t` is shifted as an `int` of 32 bits, of which a shift by 32 or more is undefined.
use nimbus_store.Base.{ℕ, zero, suc, ◌+◌, ◌*◌, ◌/◌, ◌%◌, ◌-◌, ◌^◌, [], ◌∷◌, ltb, if◌then◌else◌}
use nimbus_store.Bytes.{Bytes}

-- `|` on the lowest bits of two words
unfoldable pub or_bits : ℕ → ℕ → ℕ → ℕ
or_bits zero a b = 0
or_bits (suc bits) a b = (a % 2 + b % 2 + 1) / 2 + 2 * or_bits bits (a / 2) (b / 2)

-- `static_cast<uint64_t>(c)` of a `char`
abbrev pub widen_char : ℕ → ℕ
widen_char b = if ltb b 128 then b else b + (2 ^ 64 - 256)

-- `static_cast<uint64_t>(c) << (i * 8)`
unfoldable pub char_part : ℕ → ℕ → ℕ
char_part i b = widen_char b * 2 ^ (i * 8) % 2 ^ 64

-- `static_cast<uint8_t>(c) << (i * 8)` in a `uint32_t`
unfoldable pub word_part : ℕ → ℕ → ℕ
word_part i b = b * 2 ^ (i * 8) % 2 ^ 32

-- an `int` in a `uint64_t`
abbrev pub widen_int : ℕ → ℕ
widen_int v = if ltb v (2 ^ 31) then v else v + (2 ^ 64 - 2 ^ 32)

-- `static_cast<uint8_t>(c) << (i * 8)` in a `uint64_t`, where `past` is what an undefined shift gives
unfoldable pub int_part : (ℕ → ℕ → ℕ) → ℕ → ℕ → ℕ
unfolding word_part
int_part past i b = if ltb i 4 then widen_int (word_part i b) else past i b

-- `for (...) word |= part`
unfoldable pub read_parts : (ℕ → ℕ → ℕ) → ℕ → ℕ → ℕ → Bytes → ℕ
unfolding or_bits
read_parts part bits i acc [] = acc
read_parts part bits i acc (b ∷ bs) = read_parts part bits (suc i) (or_bits bits acc (part i b)) bs
