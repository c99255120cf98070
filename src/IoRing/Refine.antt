-- ===== src/IoRing/Refine.antt =====
-- A ring of a power of two behaves as a queue with one place less.
use native.Mathlib.Nat.{mod-eq_of_lt, pow-le-pow_right}
use nimbus_store.Base.{
  ℕ, zero, suc, ◌-◌, ◌^◌, ◌<◌, ◌≤◌, List, [], ◌∷◌, Bool, true, false, Option, ◌==◌, leb, ltb,
  replicate, length, ◌≡◌, refl, ap, ◌∙◌, arith, Bool-cases, inl, inr,
}
use nimbus_store.IoRing.Ring.{Ring, new_ring, push, pop, count, sub_word32}
use nimbus_store.IoRing.Masks.{and_bits-mask, power_positive, wrapped-mod}
use nimbus_store.IoRing.Places.{
  next_place, between, IsRing, step-mask, next_place-lt, between_full, between_room,
  between-next_place, between_step, length-set, window-set, contents, offer, poll, length-window,
}

module _ {T : Type 0} (unset : T) where
  pub push-offer :
      (k : ℕ) (r : Ring T) (x : T)
      → IsRing k r
      → let (pushed, r') = push r x in
        IsRing k r'
        × ((pushed, contents unset k r') ≡ offer unset (2 ^ k - 1) (contents unset k r) x)
  unfolding push
  push-offer k r x v =
      rw (step-mask k r.tail r.mask v.bits_le v.tail_lt v.mask_eq)
        (elim (Bool-cases (next_place (2 ^ k) r.tail == r.head)) [
          | inl e ↦
              let full : ltb (length (contents unset k r)) (2 ^ k - 1) ≡ false = ground (
                arith,
                length-window unset r.entries (2 ^ k) r.head (between (2 ^ k) r.head r.tail),
                between_full (2 ^ k) r.head r.tail v.head_lt v.tail_lt e,
              ) in
              rw (e, full) (v, refl)
          | inr e ↦
              let room : ltb (length (contents unset k r)) (2 ^ k - 1) ≡ true = ground (
                arith,
                length-window unset r.entries (2 ^ k) r.head (between (2 ^ k) r.head r.tail),
                between_room (2 ^ k) r.head r.tail v.head_lt v.tail_lt e,
              ) in
              rw (e, room)
                (
                  record {
                    bits_le = v.bits_le;
                    mask_eq = v.mask_eq;
                    head_lt = v.head_lt;
                    tail_lt = next_place-lt (2 ^ k) r.tail v.tail_lt;
                    length_eq = length-set unset r.entries r.tail x ∙ v.length_eq;
                  },
                  rw (between-next_place (2 ^ k) r.head r.tail v.head_lt v.tail_lt e) (
                      ap (λ q. (true, q))
                        (window-set unset r.entries (2 ^ k) x (between (2 ^ k) r.head r.tail) r.head
                          r.tail v.length_eq v.head_lt v.tail_lt refl
                          (between_room (2 ^ k) r.head r.tail v.head_lt v.tail_lt e))),
                )
        ])

  pop-poll :
      (k : ℕ) (r : Ring T)
      → IsRing k r
      → let (popped, r') = pop unset r in
        IsRing k r' × ((popped, contents unset k r') ≡ poll unset (contents unset k r))
  unfolding pop
  pop-poll k r v =
      rw (step-mask k r.head r.mask v.bits_le v.head_lt v.mask_eq)
        (elim (Bool-cases (r.head == r.tail)) [
          | inl e ↦
              let none_left : between (2 ^ k) r.head r.tail ≡ 0 = ground (arith, e) in
              rw (e, none_left) (v, refl)
          | inr e ↦
              rw (e, between_step (2 ^ k) r.head r.tail v.head_lt v.tail_lt e)
                (
                  record {
                    bits_le = v.bits_le;
                    mask_eq = v.mask_eq;
                    head_lt = next_place-lt (2 ^ k) r.head v.head_lt;
                    tail_lt = v.tail_lt;
                    length_eq = v.length_eq;
                  },
                  refl,
                )
        ])

  pub count-contents : (k : ℕ) (r : Ring T) → IsRing k r → count r ≡ length (contents unset k r)
  unfolding count
  count-contents k r v =
      let top : 2 ^ k ≤ 2 ^ 31 = pow-le-pow_right (omega arith) {i = k} {j = 31} v.bits_le in
      rw
        (
          v.mask_eq,
          and_bits-mask 32 k (sub_word32 r.tail r.head) (omega (arith, v.bits_le)),
          length-window unset r.entries (2 ^ k) r.head (between (2 ^ k) r.head r.tail),
        )
        (elim (Bool-cases (leb r.head r.tail)) [
          | inl e ↦
              let plain : sub_word32 r.tail r.head ≡ r.tail - r.head =
                ground (arith, e, top, v.tail_lt) in
              let small : r.tail - r.head < 2 ^ k = omega (arith, v.tail_lt) in
              rw (e, plain) (mod-eq_of_lt small)
          | inr e ↦
              let below : r.tail < r.head = ground (arith, e) in
              rw e (wrapped-mod k r.tail r.head v.bits_le below v.head_lt)
        ])

pub data Op (T : Type 0) : Type 0 where
  put : T → Op T
  get : Op T

pub data Reply (T : Type 0) : Type 0 where
  pushed : Bool → Reply T
  popped : Option T → Reply T

-- the answers of a sequence of calls
unfoldable pub run_ring : {T : Type 0} → T → List (Op T) → Ring T → List (Reply T)
unfolding push pop
run_ring unset [] r = []
run_ring unset (put x ∷ ops) r = let (ok, r') = push r x in pushed ok ∷ run_ring unset ops r'
run_ring unset (get ∷ ops) r = let (x, r') = pop unset r in popped x ∷ run_ring unset ops r'

unfoldable pub run_queue : {T : Type 0} → T → ℕ → List (Op T) → List T → List (Reply T)
run_queue unset limit [] queue = []
run_queue unset limit (put x ∷ ops) queue =
    let (ok, queue') = offer unset limit queue x in pushed ok ∷ run_queue unset limit ops queue'
run_queue unset limit (get ∷ ops) queue =
    let (x, queue') = poll unset queue in popped x ∷ run_queue unset limit ops queue'

run-IsRing :
    {T : Type 0} (unset : T) (k : ℕ) (ops : List (Op T)) (r : Ring T)
    → IsRing k r
    → run_ring unset ops r ≡ run_queue unset (2 ^ k - 1) ops (contents unset k r)
unfolding run_ring run_queue
run-IsRing unset k [] r v = refl
run-IsRing unset k (put x ∷ ops) r v =
    let (v', e) = push-offer unset k r x v in rw (run-IsRing unset k ops (push r x).1 v', ← e) refl
run-IsRing unset k (get ∷ ops) r v =
    let (v', e) = pop-poll unset k r v in rw (run-IsRing unset k ops (pop unset r).1 v', ← e) refl

length-replicate : {T : Type 0} (n : ℕ) (x : T) → length (replicate n x) ≡ n
length-replicate zero x = refl
length-replicate (suc n) x = ap suc (length-replicate n x)

pub new_ring-IsRing : {T : Type 0} (unset : T) (k : ℕ) → k ≤ 31 → IsRing k (new_ring unset (2 ^ k))
unfolding new_ring
new_ring-IsRing unset k h =
    let top : 2 ^ k ≤ 2 ^ 31 = pow-le-pow_right (omega arith) {i = k} {j = 31} h in
    record {
      bits_le = h;
      mask_eq = omega (arith, top, power_positive k);
      head_lt = power_positive k;
      tail_lt = power_positive k;
      length_eq = length-replicate (2 ^ k) unset;
    }

-- Whatever calls are made one after the other, a new ring of 2^k places, k up to 31, answers them
-- as a queue of at most 2^k - 1 elements that starts empty.
pub run_ring-run_queue :
    {T : Type 0} (unset : T) (k : ℕ) (ops : List (Op T))
    → k ≤ 31
    → run_ring unset ops (new_ring unset (2 ^ k)) ≡ run_queue unset (2 ^ k - 1) ops []
unfolding new_ring
run_ring-run_queue unset k ops h =
    run-IsRing unset k ops (new_ring unset (2 ^ k)) (new_ring-IsRing unset k h)
