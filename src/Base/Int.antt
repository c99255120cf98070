-- ===== src/Base/Int.antt =====
-- The signed integers of the sources: limits (`int`) and differences (`int64_t`).
use Prim.Native.Nat.{ℕ, suc, ◌+◌, ◌-◌, ◌*◌, ◌%◌, ◌^◌, ◌<◌, ◌≤◌}
use mathlib.Core.Path.{◌≡◌}
use native.Mathlib.Omega.{arith}
use mathlib.Core.Bool.{Bool, true}
use nimbus_store.Base.Tests.{leb, ltb, if◌then◌else◌}

-- `negsuc n` is -(n + 1).
pub data ℤ : Type 0 where
  pos : ℕ → ℤ
  negsuc : ℕ → ℤ

-- a - b, of two counts.
abbrev pub sub_ℕ : ℕ → ℕ → ℤ
sub_ℕ a b = if leb b a then pos (a - b) else negsuc (b - a - 1)

abbrev pub neg : ℕ → ℤ
neg n = sub_ℕ 0 n

-- `n * 2` of an `int` of 32 bits. Where that overflows, which the language leaves undefined, it is
-- taken to wrap, as processors do it.
abbrev pub double : ℤ → ℤ
double (pos n) = if ltb n (2 ^ 30) then pos (n * 2) else negsuc (2 ^ 32 - n * 2 - 1)
double (negsuc n) = if ltb n (2 ^ 30) then negsuc (n * 2 + 1) else pos (2 ^ 32 - (n * 2 + 2))

-- `(int)size >= limit`
abbrev pub reached : ℤ → ℕ → Bool
reached (pos n) size = leb n size
reached (negsuc n) size = true

-- `uint64_t += int64_t`
unfoldable pub add_u64 : ℕ → ℤ → ℕ
add_u64 a (pos n) = (a + n) % 2 ^ 64
add_u64 a (negsuc n) = (a + (2 ^ 64 - suc n % 2 ^ 64)) % 2 ^ 64

pub add_u64-lt : (a : ℕ) (d : ℤ) → add_u64 a d < 2 ^ 64
unfolding add_u64
add_u64-lt a (pos n) = omega arith
add_u64-lt a (negsuc n) = omega arith

-- A difference added to the number that it starts from gives the other one.
pub add_u64-sub_ℕ :
    (t a b : ℕ) → b ≤ t → t - b + a < 2 ^ 64 → t < 2 ^ 64 → add_u64 t (sub_ℕ a b) ≡ t - b + a
unfolding add_u64
add_u64-sub_ℕ t a b h k l = ground arith
