-- ===== src/S3/Backend/Laws.antt =====
-- What the store relies on of a backend, and that the backend over RocksDB has it.
use nimbus_store.Base.{
  [], ◌∷◌, true, false, Option, none, some, is_some, map, ◌≡◌, refl, ap, ◌∙◌, arith,
}
use nimbus_store.Base.Int.{ℤ}
use nimbus_store.Bytes.{Bytes}
use nimbus_store.OrderedMap.{Map, find, insert, erase, seek_from, Sorted}
use nimbus_store.Rocksdb.{Rocksdb, IsOrderedStore, batch_put, apply_batch, apply_op, read_of}
use nimbus_store.S3.Backend.{
  MetadataBackend, rocksdb_backend, scan_loop, ok_status, ok_read, read_is_ok,
}

unfoldable pub insert_all : Map → Map → Map
insert_all [] m = m
insert_all ((k, v) ∷ kvs) m = insert_all kvs (insert k v m)

-- The backend is an ordered map. A write that reports success is applied, all of a batch at
-- once; one that reports failure is not.
pub record IsOrderedBackend (b : MetadataBackend) : Type 1 where
  pub entries : b.State → Map
  pub sorted : (s : b.State) → Sorted (entries s)
  pub get_entries : (s : b.State) (k : Bytes) → b.get s k ≡ find k (entries s)
  pub exists_entries : (s : b.State) (k : Bytes) → b.exists s k ≡ is_some (find k (entries s))
  pub delete_done :
      (s : b.State) (k : Bytes)
      → (b.delete s k).1 ≡ true
      → entries (b.delete s k).0 ≡ erase k (entries s)
  pub delete_failed :
      (s : b.State) (k : Bytes) → (b.delete s k).1 ≡ false → entries (b.delete s k).0 ≡ entries s
  pub batch_done :
      (s : b.State) (kvs : Map)
      → (b.batch_put s kvs).1 ≡ true
      → entries (b.batch_put s kvs).0 ≡ insert_all kvs (entries s)
  pub batch_failed :
      (s : b.State) (kvs : Map)
      → (b.batch_put s kvs).1 ≡ false
      → entries (b.batch_put s kvs).0 ≡ entries s
  pub scan_entries :
      (s : b.State) (prefix : Bytes) (limit : ℤ)
      → b.scan s prefix limit ≡ scan_loop prefix limit 0 (seek_from prefix (entries s))

pub ok_status-true : (e : Option Bytes) → ok_status e ≡ true → e ≡ none
ok_status-true e h = ground arith

pub apply_batch-puts :
    (kvs m : Map) → apply_batch (map (λ e. batch_put e.0 e.1) kvs) m ≡ insert_all kvs m
unfolding apply_batch apply_op insert_all
apply_batch-puts [] m = refl
apply_batch-puts ((k, v) ∷ kvs) m = apply_batch-puts kvs (insert k v m)

pub ok_read-read_of : (o : Option Bytes) → ok_read (read_of o) ≡ o
unfolding read_of
ok_read-read_of none = refl
ok_read-read_of (some v) = refl

pub read_is_ok-read_of : (o : Option Bytes) → read_is_ok (read_of o) ≡ is_some o
unfolding read_of
read_is_ok-read_of none = refl
read_is_ok-read_of (some v) = refl

pub failed {ℓ} :
    {A : Type ℓ} (e : Option Bytes) (x y : A)
    → ((m : Bytes) → e ≡ some m → x ≡ y)
    → ok_status e ≡ false
    → x ≡ y
failed none x y f h = cc
failed (some m) x y f h = f m refl

-- The backend over RocksDB is an ordered map, if RocksDB is.
unfoldable pub rocksdb_backend-IsOrderedBackend :
    (r : Rocksdb) → IsOrderedStore r → IsOrderedBackend (rocksdb_backend r)
rocksdb_backend-IsOrderedBackend r o = record {
  entries = o.entries;
  sorted = o.sorted;
  get_entries = λ s k. ap ok_read (o.get_entries s k) ∙ ok_read-read_of (find k (o.entries s));
  exists_entries =
      λ s k. ap read_is_ok (o.get_entries s k) ∙ read_is_ok-read_of (find k (o.entries s));
  delete_done = λ s k h. o.delete_done s k (ok_status-true (r.delete s k).1 h);
  delete_failed = λ s k h. failed (r.delete s k).1 _ _ (o.delete_failed s k) h;
  batch_done = λ s kvs h.
      let ops = map (λ e. batch_put e.0 e.1) kvs in
      o.write_done s ops (ok_status-true (r.write s ops).1 h) ∙ apply_batch-puts kvs (o.entries s);
  batch_failed = λ s kvs h.
      let ops = map (λ e. batch_put e.0 e.1) kvs in
      failed (r.write s ops).1 _ _ (o.write_failed s ops) h;
  scan_entries = λ s prefix limit.
      ap (λ (t : Map × Option Bytes). scan_loop prefix limit 0 t.0) (o.seek_entries s prefix);
}
