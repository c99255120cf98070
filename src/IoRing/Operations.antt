-- ===== src/IoRing/Operations.antt =====
-- `IoRing` of include/nebulastore/usrbio/ioring.h: two rings, and the arguments of the submitted
-- operations. A pointer is a number here.
use nimbus_store.Base.{
  ℕ, ◌/◌, ◌%◌, ◌^◌, List, Bool, Option, none, some, if◌then◌else◌, set, replicate, length,
}
use nimbus_store.Base.Int.{ℤ}
use nimbus_store.Metadata.RocksdbStore.Words.{or_bits}
use nimbus_store.IoRing.Ring.{Ring, new_ring, push, pop, count, slot, add_word32, sub_word32}

pub record IoArgs : Type 0 where
  pub buf_id : ℕ
  pub buf_off : ℕ
  pub file_iid : ℕ
  pub file_off : ℕ
  pub io_len : ℕ
  pub userdata : ℕ

pub record IoSqe : Type 0 where
  pub index : ℕ
  pub reserved : ℕ
  pub userdata : ℕ

pub record IoCqe : Type 0 where
  pub index : ℕ
  pub result : ℤ
  pub userdata : ℕ

abbrev pub unset_args : IoArgs
unset_args = record {
  buf_id = 0;
  buf_off = 0;
  file_iid = 0;
  file_off = 0;
  io_len = 0;
  userdata = 0;
}

abbrev pub unset_sqe : IoSqe
unset_sqe = record { index = 0; reserved = 0; userdata = 0 }

abbrev pub unset_cqe : IoCqe
unset_cqe = record { index = 0; result = ℤ.pos 0; userdata = 0 }

pub record IoRing : Type 0 where
  pub sq : Ring IoSqe
  pub cq : Ring IoCqe
  pub for_read : Bool
  pub io_args : List IoArgs
  pub next_index : ℕ

-- `v |= v >> bits`
abbrev smear : ℕ → ℕ → ℕ
smear bits v = or_bits 32 v (v / 2 ^ bits)

unfoldable pub round_up_pow2 : ℕ → ℕ
unfolding or_bits
round_up_pow2 v = add_word32 (smear 16 (smear 8 (smear 4 (smear 2 (smear 1 (sub_word32 v 1)))))) 1

unfoldable pub new_io_ring : ℕ → Bool → IoRing
unfolding round_up_pow2 new_ring
new_io_ring entries for_read =
    let size = round_up_pow2 (add_word32 entries 1) in
    record {
      sq = new_ring unset_sqe size;
      cq = new_ring unset_cqe size;
      for_read = for_read;
      io_args = replicate size unset_args;
      next_index = 0;
    }

abbrev pub sqe_of : ℕ → IoArgs → IoSqe
sqe_of idx args = record { index = idx; reserved = 0; userdata = args.userdata }

-- `none` is the answer -1
unfoldable pub add_sqe : IoRing → IoArgs → Option ℕ × IoRing
unfolding push
add_sqe s args =
    let idx = s.next_index % length s.io_args in
    let (pushed, sq) = push s.sq (sqe_of idx args) in
    let s' = record s {
      io_args = set s.io_args idx args;
      next_index = add_word32 s.next_index 1;
      sq = sq;
    } in
    (if pushed then some idx else none, s')

unfoldable pub pop_cqe : IoRing → Option IoCqe × IoRing
unfolding pop
pop_cqe s = let (cqe, cq) = pop unset_cqe s.cq in (cqe, record s { cq = cq })

unfoldable pub complete_sqe : IoRing → ℕ → ℤ → ℕ → Bool × IoRing
unfolding push
complete_sqe s index result userdata =
    let (pushed, cq) = push s.cq (record { index = index; result = result; userdata = userdata }) in
    (pushed, record s { cq = cq })

unfoldable pub pop_sqe : IoRing → Option IoSqe × IoRing
unfolding pop
pop_sqe s = let (sqe, sq) = pop unset_sqe s.sq in (sqe, record s { sq = sq })

unfoldable pub get_io_args : IoRing → ℕ → IoArgs
get_io_args s index = slot unset_args s.io_args (index % length s.io_args)

unfoldable pub sqe_count : IoRing → ℕ
unfolding count
sqe_count s = count s.sq

unfoldable pub cqe_count : IoRing → ℕ
unfolding count
cqe_count s = count s.cq
