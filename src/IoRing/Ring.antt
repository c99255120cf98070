-- ===== src/IoRing/Ring.antt =====
-- `LockFreeRing` of include/nebulastore/usrbio/ioring.h: one place is left empty, so that head and
-- tail tell an empty ring from a full one. The loads and stores of one call happen together here.
use nimbus_store.Base.{
  ℕ, zero, suc, ◌+◌, ◌*◌, ◌/◌, ◌-◌, ◌%◌, ◌^◌, List, [], ◌∷◌, Bool, true, false, Option, none, some,
  ◌==◌, if◌then◌else◌, set, replicate,
}

-- `&` on the lowest bits of two words
unfoldable pub and_bits : ℕ → ℕ → ℕ → ℕ
and_bits zero a b = 0
and_bits (suc bits) a b = (a % 2) * (b % 2) + 2 * and_bits bits (a / 2) (b / 2)

-- `uint32_t` addition and subtraction
abbrev pub add_word32 : ℕ → ℕ → ℕ
add_word32 a b = (a + b) % 2 ^ 32

abbrev pub sub_word32 : ℕ → ℕ → ℕ
sub_word32 a b = (a + 2 ^ 32 - b) % 2 ^ 32

-- `entries_[i]` within bounds
abbrev pub slot {ℓ} : {T : Type ℓ} → T → List T → ℕ → T
slot unset [] i = unset
slot unset (x ∷ xs) zero = x
slot unset (x ∷ xs) (suc i) = slot unset xs i

pub record Ring (T : Type 0) : Type 0 where
  pub capacity : ℕ
  pub mask : ℕ
  pub head : ℕ
  pub tail : ℕ
  pub entries : List T

unfoldable pub new_ring : {T : Type 0} → T → ℕ → Ring T
new_ring unset capacity = record {
  capacity = capacity;
  mask = sub_word32 capacity 1;
  head = 0;
  tail = 0;
  entries = replicate capacity unset;
}

unfoldable pub push : {T : Type 0} → Ring T → T → Bool × Ring T
push r entry =
    let next = and_bits 32 (add_word32 r.tail 1) r.mask in
    if next == r.head
    then (false, r)
    else (true, record r { entries = set r.entries r.tail entry; tail = next })

-- `none` is the answer `false`
unfoldable pub pop : {T : Type 0} → T → Ring T → Option T × Ring T
pop unset r = if r.head == r.tail then (none, r) else (
  some (slot unset r.entries r.head),
  record r { head = and_bits 32 (add_word32 r.head 1) r.mask },
)

unfoldable pub count : {T : Type 0} → Ring T → ℕ
count r = and_bits 32 (sub_word32 r.tail r.head) r.mask
