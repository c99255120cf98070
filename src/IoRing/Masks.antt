-- ===== src/IoRing/Masks.antt =====
-- The mask of a ring: `& (2^k - 1)` is the remainder modulo `2^k`.
use native.Mathlib.Nat.{
  pow-suc, mul-one, mul_comm, mul_assoc, add-mul-mod_self_left, mod-eq_of_lt, div-add-mod, mod-lt,
  pow-le-pow_right, mul-add,
}
use nimbus_store.Base.{
  ℕ, zero, suc, ◌+◌, ◌*◌, ◌/◌, ◌-◌, ◌%◌, ◌^◌, ◌<◌, ◌≤◌, ◌≡◌, ap, sym, ◌∙◌, arith,
}
use nimbus_store.IoRing.Ring.{and_bits}

pub power_positive : (k : ℕ) → 1 ≤ 2 ^ k
power_positive k = pow-le-pow_right (omega arith) {i = 0} {j = k} (omega arith)

-- the lowest bit apart
mod-double : (x m : ℕ) → 1 ≤ m → x % (2 * m) ≡ x % 2 + 2 * (x / 2 % m)
mod-double x m h =
    let r = x / 2 % m in
    let q = x / 2 / m in
    let low : r < m = mod-lt (x / 2) (omega (arith, h)) in
    let whole : x ≡ x % 2 + 2 * r + 2 * m * q =
      omega (arith, div-add-mod (x / 2) m, mul_assoc 2 m q) in
    ap (λ (n : ℕ). n % (2 * m)) whole
    ∙ add-mul-mod_self_left (x % 2 + 2 * r) (2 * m) q
    ∙ mod-eq_of_lt (omega (arith, low))

pub and_bits-mask : (n k x : ℕ) → k ≤ n → and_bits n x (2 ^ k - 1) ≡ x % 2 ^ k
unfolding and_bits
and_bits-mask zero zero x h = omega arith
and_bits-mask zero (suc k) x h = absurd (omega (arith, h))
and_bits-mask (suc n) zero x h =
    let e = and_bits-mask n zero (x / 2) (omega arith) in omega (arith, e)
and_bits-mask (suc n) (suc k) x h =
    let odd : (2 ^ suc k - 1) % 2 ≡ 1 = omega (arith, pow-suc 2 k, power_positive k) in
    let half : (2 ^ suc k - 1) / 2 ≡ 2 ^ k - 1 = omega (arith, pow-suc 2 k, power_positive k) in
    let e = and_bits-mask n k (x / 2) (omega (arith, h)) in
    let split : x % 2 ^ suc k ≡ x % 2 + 2 * (x / 2 % 2 ^ k) =
      ap (λ (m : ℕ). x % m) (pow-suc 2 k ∙ mul_comm (2 ^ k) 2)
      ∙ mod-double x (2 ^ k) (power_positive k) in
    rw (odd, half, e, split) (omega arith)

power-split : (k j : ℕ) → 2 ^ k * 2 ^ j ≡ 2 ^ (k + j)
power-split k zero = rw (mul-one (2 ^ k)) (ap (λ (n : ℕ). 2 ^ n) (omega arith))
power-split k (suc j) =
    rw (pow-suc 2 j, sym (mul_assoc (2 ^ k) (2 ^ j) 2), power-split k j)
      (sym (pow-suc 2 (k + j)) ∙ ap (λ (n : ℕ). 2 ^ n) (omega arith))

-- A difference that wraps at 32 bits is still right modulo a smaller power of two.
pub wrapped-mod :
    (k a b : ℕ) → k ≤ 31 → a < b → b < 2 ^ k → (a + 2 ^ 32 - b) % 2 ^ 32 % 2 ^ k ≡ a + 2 ^ k - b
wrapped-mod k a b h l w =
    let positive = power_positive (32 - k) in
    let top : 2 ^ k ≤ 2 ^ 31 = pow-le-pow_right (omega arith) {i = k} {j = 31} h in
    let whole : 2 ^ k * 2 ^ (32 - k) ≡ 2 ^ 32 =
      (let sum : k + (32 - k) ≡ 32 = omega (arith, h) in
        power-split k (32 - k) ∙ ap (λ (n : ℕ). 2 ^ n) sum) in
    let next : 2 ^ k * 2 ^ (32 - k) ≡ 2 ^ k + 2 ^ k * (2 ^ (32 - k) - 1) =
      ap (λ (n : ℕ). 2 ^ k * n) (the_next (2 ^ (32 - k)) positive)
      ∙ mul-add (2 ^ k) 1 (2 ^ (32 - k) - 1)
      ∙ omega arith in
    let sum : (a + 2 ^ 32 - b) % 2 ^ 32 ≡ (a + 2 ^ k - b) + 2 ^ k * (2 ^ (32 - k) - 1) =
      omega (arith, whole, next, l, w, top) in
    ap (λ (n : ℕ). n % 2 ^ k) sum
    ∙ add-mul-mod_self_left (a + 2 ^ k - b) (2 ^ k) (2 ^ (32 - k) - 1)
    ∙ mod-eq_of_lt (omega (arith, l, w))
  where
    the_next : (n : ℕ) → 1 ≤ n → n ≡ 1 + (n - 1)
    the_next n p = omega (arith, p)
