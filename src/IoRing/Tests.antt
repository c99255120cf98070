-- ===== src/IoRing/Tests.antt =====
-- Small rings.
use nimbus_store.Base.{ℕ, [], ◌∷◌, true, false, some, ◌≡◌, refl, arith}
use nimbus_store.IoRing.Ring.{new_ring}
use nimbus_store.IoRing.Refine.{
  put, get, pushed, popped, run_ring, run_ring-run_queue, run_queue, new_ring-IsRing,
}
use nimbus_store.IoRing.Places.{contents}
use nimbus_store.IoRing.Operations.{
  IoRing, IoArgs, round_up_pow2, add_sqe, get_io_args, sqe_of, unset_sqe, unset_cqe, unset_args,
}
use nimbus_store.IoRing.Submissions.{add_sqe_lem}

round_up_pow2_run : round_up_pow2 5 ≡ 8
unfolding round_up_pow2
round_up_pow2_run = refl

-- a ring of four places holds three elements
run_ring-run_queue_example :
    run_ring {T = ℕ} 0 (put 7 ∷ put 8 ∷ put 9 ∷ put 10 ∷ get ∷ []) (new_ring 0 4)
    ≡ pushed true ∷ pushed true ∷ pushed true ∷ pushed false ∷ popped (some 7) ∷ []
unfolding run_queue
run_ring-run_queue_example =
    run_ring-run_queue {T = ℕ} 0 2 (put 7 ∷ put 8 ∷ put 9 ∷ put 10 ∷ get ∷ []) (omega arith)

abbrev args : IoArgs
args = record { buf_id = 1; buf_off = 2; file_iid = 3; file_off = 4; io_len = 5; userdata = 6 }

-- rings of two places, which hold one element
abbrev small : IoRing
small = record {
  sq = new_ring unset_sqe 2;
  cq = new_ring unset_cqe 2;
  for_read = true;
  io_args = unset_args ∷ unset_args ∷ [];
  next_index = 3;
}

add_sqe_lem_example :
    (get_io_args (add_sqe small args).1 3 ≡ args)
    × ((add_sqe small args).0 ≡ some 1)
    × (contents unset_sqe 1 (add_sqe small args).1.sq ≡ sqe_of 1 args ∷ [])
unfolding new_ring
add_sqe_lem_example = add_sqe_lem 1 small args (new_ring-IsRing unset_sqe 1 (omega arith)) refl
