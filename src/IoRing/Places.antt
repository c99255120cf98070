-- ===== src/IoRing/Places.antt =====
-- The places of a ring, and the queue of what stands in them.
use native.Mathlib.Nat.{mod-eq_of_lt, mod_self, pow-le-pow_right}
use nimbus_store.Base.{
  ℕ, zero, suc, ◌+◌, ◌-◌, ◌%◌, ◌^◌, ◌<◌, ◌≤◌, List, [], ◌∷◌, ◌++◌, Bool, true, false, Option, none,
  some, ◌==◌, leb, ltb, if◌then◌else◌, set, length, ◌≡◌, refl, ap, ap₂, ◌∙◌, arith, Bool-cases, inl,
  inr,
}
use nimbus_store.IoRing.Ring.{Ring, slot, and_bits, add_word32}
use nimbus_store.IoRing.Masks.{and_bits-mask}

-- the place that follows one of `size`, and how many lie between two
abbrev pub next_place : ℕ → ℕ → ℕ
next_place size i = if i + 1 == size then 0 else i + 1

abbrev pub between : ℕ → ℕ → ℕ → ℕ
between size head tail = if leb head tail then tail - head else tail + size - head

pub record IsRing {T : Type 0} (k : ℕ) (r : Ring T) : Type 0 where
  pub bits_le : k ≤ 31
  pub mask_eq : r.mask ≡ 2 ^ k - 1
  pub head_lt : r.head < 2 ^ k
  pub tail_lt : r.tail < 2 ^ k
  pub length_eq : length r.entries ≡ 2 ^ k

pub step-mask :
    (k i mask : ℕ)
    → k ≤ 31
    → i < 2 ^ k
    → mask ≡ 2 ^ k - 1
    → and_bits 32 (add_word32 i 1) mask ≡ next_place (2 ^ k) i
step-mask k i mask h l e =
    let top : 2 ^ k ≤ 2 ^ 31 = pow-le-pow_right (omega arith) {i = k} {j = 31} h in
    let plain : add_word32 i 1 ≡ i + 1 = omega (arith, top, l) in
    rw (plain, e, and_bits-mask 32 k (i + 1) (omega (arith, h)))
      (elim (Bool-cases (i + 1 == 2 ^ k)) [
        | inl f ↦
            let g : i + 1 ≡ 2 ^ k = ground (arith, f) in
            rw f (ap (λ (n : ℕ). n % 2 ^ k) g ∙ mod_self (2 ^ k))
        | inr f ↦ let g : i + 1 < 2 ^ k = ground (arith, f) in rw f (mod-eq_of_lt g)
      ])

pub next_place-lt : (size i : ℕ) → i < size → next_place size i < size
next_place-lt size i h = ground (arith, h)

pub between_full :
    (size head tail : ℕ)
    → head < size
    → tail < size
    → (next_place size tail == head) ≡ true
    → between size head tail ≡ size - 1
between_full size head tail h t e = ground (arith, e)

pub between_room :
    (size head tail : ℕ)
    → head < size
    → tail < size
    → (next_place size tail == head) ≡ false
    → between size head tail + 1 < size
between_room size head tail h t e = ground (arith, e)

pub between-next_place :
    (size head tail : ℕ)
    → head < size
    → tail < size
    → (next_place size tail == head) ≡ false
    → between size head (next_place size tail) ≡ suc (between size head tail)
between-next_place size head tail h t e = ground (arith, e)

-- the other way round, where the head moves on
pub between_step :
    (size head tail : ℕ)
    → head < size
    → tail < size
    → (head == tail) ≡ false
    → between size head tail ≡ suc (between size (next_place size head) tail)
between_step size head tail h t e = ground (arith, e)

module _ {T : Type 0} (unset : T) where
  pub length-set : (xs : List T) (i : ℕ) (x : T) → length (set xs i x) ≡ length xs
  length-set [] i x = refl
  length-set (y ∷ xs) zero x = refl
  length-set (y ∷ xs) (suc i) x = ap suc (length-set xs i x)

  pub slot-set :
      (xs : List T) (i j : ℕ) (x : T)
      → i < length xs
      → slot unset (set xs i x) j ≡ (if j == i then x else slot unset xs j)
  slot-set [] i j x h = absurd (omega (arith, h))
  slot-set (y ∷ xs) zero zero x h = ground arith
  slot-set (y ∷ xs) zero (suc j) x h = ground arith
  slot-set (y ∷ xs) (suc i) zero x h = ground arith
  slot-set (y ∷ xs) (suc i) (suc j) x h = ground (arith, slot-set xs i j x (omega (arith, h)))

  -- the entries of `n` places from one on
  abbrev pub window : List T → ℕ → ℕ → ℕ → List T
  window entries size i zero = []
  window entries size i (suc n) = slot unset entries i ∷ window entries size (next_place size i) n

  pub window-set :
      (entries : List T) (size : ℕ) (x : T) (n head tail : ℕ)
      → length entries ≡ size
      → head < size
      → tail < size
      → between size head tail ≡ n
      → n + 1 < size
      → window (set entries tail x) size head (suc n) ≡ window entries size head n ++ x ∷ []
  window-set entries size x zero head tail l h t e w =
      let same : (head == tail) ≡ true = ground (arith, e) in
      ap (λ y. y ∷ []) (rw (slot-set entries tail head x (omega (arith, l, t)), same) refl)
  window-set entries size x (suc n) head tail l h t e w =
      let other : (head == tail) ≡ false = ground (arith, e) in
      let shorter : between size (next_place size head) tail ≡ n = ground (arith, e) in
      ap₂ (λ y ys. y ∷ ys) (rw (slot-set entries tail head x (omega (arith, l, t)), other) refl)
        (window-set entries size x n (next_place size head) tail l (ground (arith, h)) t shorter
          (omega (arith, w)))

  abbrev pub contents : ℕ → Ring T → List T
  contents k r = window r.entries (2 ^ k) r.head (between (2 ^ k) r.head r.tail)

  -- a queue of at most `limit` elements
  abbrev pub offer : ℕ → List T → T → Bool × List T
  offer limit queue x = if ltb (length queue) limit then (true, queue ++ x ∷ []) else (false, queue)

  abbrev pub poll : List T → Option T × List T
  poll [] = (none, [])
  poll (x ∷ queue) = (some x, queue)

  pub length-window : (entries : List T) (size i n : ℕ) → length (window entries size i n) ≡ n
  length-window entries size i zero = refl
  length-window entries size i (suc n) = ap suc (length-window entries size (next_place size i) n)
