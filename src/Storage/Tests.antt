-- ===== src/Storage/Tests.antt =====
-- The local backend over a file system in memory.
use nimbus_store.Base.{ℕ, true, Option, none, some, take, drop}
use nimbus_store.Bytes.{Bytes, codes, bytes_eq}
use nimbus_store.OrderedMap.{Map, find, insert, erase}
use nimbus_store.Storage.Local.{FileSystem, written, ReadResult, content, no_file}

abbrev read_of : Option Bytes → ReadResult
read_of none = no_file
read_of (some bytes) = content bytes

abbrev part_of : ℕ → ℕ → Option Bytes → ReadResult
part_of offset size none = no_file
part_of offset size (some bytes) = content (take size (drop offset bytes))

abbrev files : FileSystem
files = record {
  Fs = Map;
  create_directories = λ s path. (s, none);
  write_file = λ s path bytes. (insert path bytes s, written, true);
  read_file = λ s path. read_of (find path s);
  read_at = λ s path offset size. part_of offset size (find path s);
  remove = λ s path. (erase path s, none);
  exists = λ s path. some true;
  space = λ s path. some (9, 4);
  parent_path = λ path. path;
  equivalent = λ s path other. bytes_eq path other;
}

abbrev two_letters : Bytes
two_letters = codes "ab"
