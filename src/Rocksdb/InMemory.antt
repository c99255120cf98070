-- ===== src/Rocksdb/InMemory.antt =====
-- A database in memory that is writable while its disk has room: it shows that the behaviour
-- which the interface asks for can be had, failing writes included.
use nimbus_store.Base.{ℕ, zero, suc, List, [], ◌∷◌, Option, none, some, ◌≡◌, refl}
use nimbus_store.Bytes.{Bytes, codes}
use nimbus_store.OrderedMap.{Map, find, seek_from, Sorted}
use nimbus_store.OrderedMap.Laws.{insert-Sorted, erase-Sorted}
use nimbus_store.Rocksdb.{
  Rocksdb, BatchOp, batch_put, batch_delete, apply_op, apply_batch, read_of, IsOrderedStore,
}

-- The entries, and how many more writes fit.
pub record Memory : Type 0 where
  pub content : Map
  pub order : Sorted content
  pub room : ℕ

apply_op-Sorted : (o : BatchOp) (m : Map) → Sorted m → Sorted (apply_op o m)
unfolding apply_op
apply_op-Sorted (batch_put k v) m s = insert-Sorted k v m s
apply_op-Sorted (batch_delete k) m s = erase-Sorted k m s

pub apply_batch-Sorted : (ops : List BatchOp) (m : Map) → Sorted m → Sorted (apply_batch ops m)
unfolding apply_batch
apply_batch-Sorted [] m s = s
apply_batch-Sorted (o ∷ ops) m s = apply_batch-Sorted ops (apply_op o m) (apply_op-Sorted o m s)

unfoldable pub write_memory : ℕ → Memory → List BatchOp → Memory × Option Bytes
write_memory zero d ops = (d, some (codes "No space left on device"))
write_memory (suc n) d ops = (
  record {
    content = apply_batch ops d.content;
    order = apply_batch-Sorted ops d.content d.order;
    room = n;
  },
  none,
)

abbrev pub memory : Rocksdb
memory = record {
  Db = Memory;
  get = λ d k. read_of (find k d.content);
  put = λ d k v. write_memory d.room d (batch_put k v ∷ []);
  delete = λ d k. write_memory d.room d (batch_delete k ∷ []);
  write = λ d ops. write_memory d.room d ops;
  seek = λ d k. (seek_from k d.content, none);
}

pub write_done :
    (n : ℕ) (d : Memory) (ops : List BatchOp)
    → (write_memory n d ops).1 ≡ none
    → (write_memory n d ops).0.content ≡ apply_batch ops d.content
unfolding write_memory
write_done zero d ops h = cc
write_done (suc n) d ops h = refl

pub write_failed :
    (n : ℕ) (d : Memory) (ops : List BatchOp) (e : Bytes)
    → (write_memory n d ops).1 ≡ some e
    → (write_memory n d ops).0.content ≡ d.content
unfolding write_memory
write_failed zero d ops e h = refl
write_failed (suc n) d ops e h = cc

unfoldable pub memory-IsOrderedStore : IsOrderedStore memory
unfolding apply_batch apply_op
memory-IsOrderedStore = record {
  entries = λ d. d.content;
  sorted = λ d. d.order;
  get_entries = λ d k. refl;
  put_done = λ d k v. write_done d.room d (batch_put k v ∷ []);
  put_failed = λ d k v. write_failed d.room d (batch_put k v ∷ []);
  delete_done = λ d k. write_done d.room d (batch_delete k ∷ []);
  delete_failed = λ d k. write_failed d.room d (batch_delete k ∷ []);
  write_done = λ d ops. write_done d.room d ops;
  write_failed = λ d ops. write_failed d.room d ops;
  seek_entries = λ d k. refl;
}
