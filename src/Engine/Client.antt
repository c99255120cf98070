-- ===== src/Engine/Client.antt =====
-- `KVClient` of include/nebulastore/metadata/meta_engine.h, and `RocksDBKVClient`.
use nimbus_store.Base.{
  ℕ, ◌+◌, List, [], ◌∷◌, true, false, Option, none, some, map, ltb, leb, ◌&&◌, if◌then◌else◌, ◌≡◌,
  refl, ap, ◌∙◌,
}
use nimbus_store.Bytes.{Bytes, bytes_lt}
use nimbus_store.OrderedMap.{Map, find, insert, erase, seek_from, Sorted}
use nimbus_store.Rocksdb.{
  Rocksdb, IsOrderedStore, ReadResult, found, read_error, BatchOp, batch_put, batch_delete, read_of,
}
use nimbus_store.Metadata.Types.{
  Status, Result, done, failed, fine, io, is_ok, not_found as missing,
}

pub data TxnOp : Type 0 where
  put_op : Bytes → Bytes → TxnOp
  delete_op : Bytes → TxnOp

-- The limit of `scan` is 0 for none.
pub record KvClient : Type 1 where
  pub State : Type 0
  pub get : State → Bytes → Result Bytes
  pub set : State → Bytes → Bytes → State × Status
  pub delete : State → Bytes → State × Status
  pub scan : State → Bytes → Bytes → ℕ → Result Map
  pub txn : State → List TxnOp → State × Status

-- `Status::NotFound()` without a message, `Status::IO` with the library's
abbrev pub read_status : ReadResult → Result Bytes
read_status (found v) = done v
read_status ReadResult.not_found = failed (missing [])
read_status (read_error e) = failed (io e)

abbrev pub write_status : Option Bytes → Status
write_status none = fine
write_status (some e) = io e

-- the loop of `Scan`; the counter stops at the limit, a 32-bit word
unfoldable pub scan_range : Bytes → ℕ → ℕ → Map → Map
scan_range end limit count [] = []
scan_range end limit count (e ∷ rest) =
    let more = scan_range end limit (count + 1) rest in
    if bytes_lt e.0 end then e ∷ (if ltb 0 limit && leb limit (count + 1) then [] else more) else []

abbrev batch_of : TxnOp → BatchOp
batch_of (put_op k v) = batch_put k v
batch_of (delete_op k) = batch_delete k

abbrev pub rocksdb_client : Rocksdb → KvClient
rocksdb_client r = record {
  State = r.Db;
  get = λ d k. read_status (r.get d k);
  set = λ d k v. let (d', e) = r.put d k v in (d', write_status e);
  delete = λ d k. let (d', e) = r.delete d k in (d', write_status e);
  scan = λ d start end limit. done (scan_range end limit 0 (r.seek d start).0);
  txn = λ d ops. let (d', e) = r.write d (map batch_of ops) in (d', write_status e);
}

abbrev pub get_of : Option Bytes → Result Bytes
get_of none = failed (missing [])
get_of (some v) = done v

-- The client is an ordered map: what an operation that reports OK does, and what one that fails
-- leaves.
pub record IsOrderedClient (c : KvClient) : Type 1 where
  pub entries : c.State → Map
  pub sorted : (s : c.State) → Sorted (entries s)
  pub get_entries : (s : c.State) (k : Bytes) → c.get s k ≡ get_of (find k (entries s))
  pub set_done :
      (s : c.State) (k v : Bytes)
      → is_ok (c.set s k v).1 ≡ true
      → entries (c.set s k v).0 ≡ insert k v (entries s)
  pub set_failed :
      (s : c.State) (k v : Bytes)
      → is_ok (c.set s k v).1 ≡ false
      → entries (c.set s k v).0 ≡ entries s
  pub delete_done :
      (s : c.State) (k : Bytes)
      → is_ok (c.delete s k).1 ≡ true
      → entries (c.delete s k).0 ≡ erase k (entries s)
  pub delete_failed :
      (s : c.State) (k : Bytes)
      → is_ok (c.delete s k).1 ≡ false
      → entries (c.delete s k).0 ≡ entries s
  pub scan_entries :
      (s : c.State) (start end : Bytes) (limit : ℕ)
      → c.scan s start end limit ≡ done (scan_range end limit 0 (seek_from start (entries s)))

pub write_status-is_ok : (e : Option Bytes) → is_ok (write_status e) ≡ true → e ≡ none
write_status-is_ok none h = refl
write_status-is_ok (some m) h = cc

pub write_failed {ℓ} :
    {A : Type ℓ} (e : Option Bytes) (x y : A)
    → ((m : Bytes) → e ≡ some m → x ≡ y)
    → is_ok (write_status e) ≡ false
    → x ≡ y
write_failed none x y f h = cc
write_failed (some m) x y f h = f m refl

pub read_status-read_of : (o : Option Bytes) → read_status (read_of o) ≡ get_of o
unfolding read_of
read_status-read_of none = refl
read_status-read_of (some v) = refl

-- The client over RocksDB is an ordered map, if RocksDB is.
unfoldable pub rocksdb_client-IsOrderedClient :
    (r : Rocksdb) → IsOrderedStore r → IsOrderedClient (rocksdb_client r)
rocksdb_client-IsOrderedClient r o = record {
  entries = o.entries;
  sorted = o.sorted;
  get_entries =
      λ s k. ap read_status (o.get_entries s k) ∙ read_status-read_of (find k (o.entries s));
  set_done = λ s k v h. o.put_done s k v (write_status-is_ok (r.put s k v).1 h);
  set_failed = λ s k v h. write_failed (r.put s k v).1 _ _ (o.put_failed s k v) h;
  delete_done = λ s k h. o.delete_done s k (write_status-is_ok (r.delete s k).1 h);
  delete_failed = λ s k h. write_failed (r.delete s k).1 _ _ (o.delete_failed s k) h;
  scan_entries = λ s start end limit.
      ap (λ (t : Map × Option Bytes). done (scan_range end limit 0 t.0)) (o.seek_entries s start);
}
