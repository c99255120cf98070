-- ===== src/Metadata/RocksdbStore/IntWords.antt =====
-- What the loop of src/metadata/rocksdb_store.cpp reads whose bytes are shifted as `int`.
use nimbus_store.Base.{ℕ, ◌*◌, ◌/◌, ◌%◌, ◌^◌, ◌<◌, ◌≤◌, false, ltb, ◌≡◌, ◌∙◌, arith}
use nimbus_store.Bytes.Words.{le_bytes, of_le-le_bytes}
use nimbus_store.Metadata.RocksdbStore.Words.{word_part, int_part, read_parts}
use nimbus_store.Metadata.RocksdbStore.Shifts.{IsPlain, read_parts-IsPlain}

low_part :
    (past : ℕ → ℕ → ℕ) (i b : ℕ)
    → i < 4
    → b * 2 ^ (i * 8) < 2 ^ 31
    → int_part past i b ≡ b * 2 ^ (i * 8)
unfolding int_part word_part
low_part past i b h w = ground arith

high_part :
    (past : ℕ → ℕ → ℕ) (i b : ℕ)
    → 4 ≤ i
    → past i 0 ≡ 0
    → b ≡ 0
    → int_part past i b ≡ b * 2 ^ (i * 8)
unfolding int_part
high_part past i b h z e = let c : ltb i 4 ≡ false = ground (arith, h) in rw (e, c, z) (omega arith)

int-IsPlain :
    (past : ℕ → ℕ → ℕ) (v : ℕ)
    → v < 2 ^ 31
    → ((i : ℕ) → past i 0 ≡ 0)
    → IsPlain (int_part past) 0 (le_bytes 8 v)
unfolding le_bytes
int-IsPlain past v h zero_shift = (
  omega arith,
  low_part past 0 (v % 256) (omega arith) (omega arith),
  (
    omega arith,
    low_part past 1 (v / 256 % 256) (omega arith) (omega arith),
    (
      omega arith,
      low_part past 2 (v / 256 / 256 % 256) (omega arith) (omega arith),
      (
        omega arith,
        low_part past 3 (v / 256 / 256 / 256 % 256) (omega arith) (omega arith),
        (
          omega arith,
          high_part past 4 (v / 256 / 256 / 256 / 256 % 256) (omega arith) (zero_shift 4)
              (omega arith),
          (
            omega arith,
            high_part past 5 (v / 256 / 256 / 256 / 256 / 256 % 256) (omega arith) (zero_shift 5)
                (omega arith),
            (
              omega arith,
              high_part past 6 (v / 256 / 256 / 256 / 256 / 256 / 256 % 256) (omega arith)
                  (zero_shift 6) (omega arith),
              (
                omega arith,
                high_part past 7 (v / 256 / 256 / 256 / 256 / 256 / 256 / 256 % 256) (omega arith)
                    (zero_shift 7) (omega arith),
                tt,
              ),
            ),
          ),
        ),
      ),
    ),
  ),
)

-- A word of 64 bits that is below 2^31 is read as it was written from bytes that are shifted as
-- `int`, where an undefined shift of the byte 0 gives 0.
pub read_int_word :
    (past : ℕ → ℕ → ℕ) (v : ℕ)
    → v < 2 ^ 31
    → ((i : ℕ) → past i 0 ≡ 0)
    → read_parts (int_part past) 64 0 0 (le_bytes 8 v) ≡ v
read_int_word past v h zero_shift =
    read_parts-IsPlain (int_part past) 64 0 0 (le_bytes 8 v) (int-IsPlain past v h zero_shift)
      (omega arith) (omega (arith, of_le-le_bytes 8 v (omega (arith, h)), h))
    ∙ omega (arith, of_le-le_bytes 8 v (omega (arith, h)))
