-- ===== src/Rocksdb.antt =====
-- The RocksDB library, which the repository links and does not contain: an interface with the
-- calls that the sources make, and the documented behaviour that they rely on as a record of
-- laws. A call that writes returns the database beside `none` for an OK status, or the message.
pub mod InMemory
use nimbus_store.Base.{List, [], ◌∷◌, Option, none, some, ◌≡◌}
use nimbus_store.Bytes.{Bytes}
use nimbus_store.OrderedMap.{Map, find, insert, erase, seek_from, Sorted}

pub data ReadResult : Type 0 where
  found : Bytes → ReadResult
  not_found : ReadResult
  read_error : Bytes → ReadResult

pub data BatchOp : Type 0 where
  batch_put : Bytes → Bytes → BatchOp
  batch_delete : Bytes → BatchOp

pub record Rocksdb : Type 1 where
  pub Db : Type 0
  pub get : Db → Bytes → ReadResult
  pub put : Db → Bytes → Bytes → Db × Option Bytes
  pub delete : Db → Bytes → Db × Option Bytes
  pub write : Db → List BatchOp → Db × Option Bytes
  -- what an iterator yields from `Seek`, and its final status
  pub seek : Db → Bytes → Map × Option Bytes

unfoldable pub apply_op : BatchOp → Map → Map
apply_op (batch_put k v) m = insert k v m
apply_op (batch_delete k) m = erase k m

unfoldable pub apply_batch : List BatchOp → Map → Map
apply_batch [] m = m
apply_batch (o ∷ ops) m = apply_batch ops (apply_op o m)

unfoldable pub read_of : Option Bytes → ReadResult
read_of none = not_found
read_of (some v) = found v

-- A database whose reads do not fail: it is an ordered map, a write that reports OK is applied
-- whole, and one that reports an error is not applied.
pub record IsOrderedStore (r : Rocksdb) : Type 1 where
  pub entries : r.Db → Map
  pub sorted : (d : r.Db) → Sorted (entries d)
  pub get_entries : (d : r.Db) (k : Bytes) → r.get d k ≡ read_of (find k (entries d))
  pub put_done :
      (d : r.Db) (k v : Bytes)
      → (r.put d k v).1 ≡ none
      → entries (r.put d k v).0 ≡ insert k v (entries d)
  pub put_failed :
      (d : r.Db) (k v e : Bytes) → (r.put d k v).1 ≡ some e → entries (r.put d k v).0 ≡ entries d
  pub delete_done :
      (d : r.Db) (k : Bytes)
      → (r.delete d k).1 ≡ none
      → entries (r.delete d k).0 ≡ erase k (entries d)
  pub delete_failed :
      (d : r.Db) (k e : Bytes) → (r.delete d k).1 ≡ some e → entries (r.delete d k).0 ≡ entries d
  pub write_done :
      (d : r.Db) (ops : List BatchOp)
      → (r.write d ops).1 ≡ none
      → entries (r.write d ops).0 ≡ apply_batch ops (entries d)
  pub write_failed :
      (d : r.Db) (ops : List BatchOp) (e : Bytes)
      → (r.write d ops).1 ≡ some e
      → entries (r.write d ops).0 ≡ entries d
  pub seek_entries : (d : r.Db) (k : Bytes) → r.seek d k ≡ (seek_from k (entries d), none)
