-- ===== src/IoRing/Submissions.antt =====
-- `AddSqe` of include/nebulastore/usrbio/ioring.h, with room in the submission queue and without.
use native.Mathlib.Nat.{mod-lt}
use nimbus_store.Base.{
  ℕ, ◌-◌, ◌%◌, ◌^◌, ◌<◌, [], ◌∷◌, ◌++◌, none, some, ==_refl, ltb, if◌then◌else◌, length, ◌≡◌, refl,
  ap, arith, Bool-cases, inl, inr,
}
use nimbus_store.IoRing.Masks.{power_positive}
use nimbus_store.IoRing.Refine.{push-offer}
use nimbus_store.IoRing.Places.{IsRing, contents, length-set, slot-set}
use nimbus_store.IoRing.Operations.{
  IoArgs, IoRing, unset_sqe, unset_args, add_sqe, sqe_of, get_io_args,
}

-- Let the submission queue be a ring of 2^k places and the arguments be as many. `AddSqe` writes the
-- arguments at the next index modulo 2^k, also where it answers -1: it answers that index and
-- appends an entry for it where fewer than 2^k - 1 entries wait, and leaves the queue as it is
-- and answers -1 where it is full.
pub add_sqe_lem :
    (k : ℕ) (s : IoRing) (args : IoArgs)
    → IsRing k s.sq
    → length s.io_args ≡ 2 ^ k
    → let (answer, s') = add_sqe s args in
      let idx = s.next_index % 2 ^ k in
      let queue = contents unset_sqe k s.sq in
      (get_io_args s' s.next_index ≡ args)
      × (answer ≡ (if ltb (length queue) (2 ^ k - 1) then some idx else none))
      × (contents unset_sqe k s'.sq
          ≡ (if ltb (length queue) (2 ^ k - 1) then queue ++ sqe_of idx args ∷ [] else queue))
unfolding add_sqe get_io_args
add_sqe_lem k s args v size =
    let idx = s.next_index % 2 ^ k in
    let low : idx < 2 ^ k = mod-lt s.next_index (power_positive k) in
    let e = (push-offer unset_sqe k s.sq (sqe_of idx args) v).1 in
    (
      rw
          (
            size,
            length-set unset_args s.io_args idx args,
            size,
            slot-set unset_args s.io_args idx idx args (omega (arith, size, low)),
            ==_refl idx,
          )
          refl,
      rw (size, ap (λ z. z.0) e)
          (elim (Bool-cases (ltb (length (contents unset_sqe k s.sq)) (2 ^ k - 1))) [
            | inl f ↦ rw f refl
            | inr f ↦ rw f refl
          ]),
      rw (size, ap (λ z. z.1) e)
          (elim (Bool-cases (ltb (length (contents unset_sqe k s.sq)) (2 ^ k - 1))) [
            | inl f ↦ rw f refl
            | inr f ↦ rw f refl
          ]),
    )
