-- ===== src/Metadata/Tests.antt =====
-- The metadata service over `RocksDBStore` and a database in memory.
use nimbus_store.Base.{ℕ, [], ◌∷◌, true, some, ◌≡◌, refl, ap, arith, length}
use nimbus_store.Bytes.{codes, cmp}
use nimbus_store.Metadata.Types.{
  exist, InodeAttr, done, FileMode, is_ok, is_directory, directory_mode, type_code, type_of_code,
}
use nimbus_store.Metadata.Paths.{parse_path, parse_parts, split_parent_child, cut_last}
use nimbus_store.Metadata.Paths.Joined.{IsName, absolute}
use nimbus_store.Metadata.Store.{
  MetaPartition, lookup, lookup_dentry, create_dentry, create_inode, fresh_attr,
}
use nimbus_store.Metadata.RocksdbStore.InMemory.{in_memory, in_memory-IsMetadataStore, empty_db}
use nimbus_store.Bytes.Words.{le_bytes}
use nimbus_store.OrderedMap.{find, insert}
use nimbus_store.Rocksdb.{apply_batch, apply_op, read_of}
use nimbus_store.Rocksdb.InMemory.{write_memory}
use nimbus_store.Metadata.RocksdbStore.RoundTrip.{chars_of}
use nimbus_store.Metadata.RocksdbStore.Words.{read_parts, or_bits, char_part, word_part, int_part}
use nimbus_store.Metadata.RocksdbStore.Values.{
  decode_dentry_value, decode_inode_value, encode_dentry_key, encode_dentry_value, encode_inode_key,
  encode_inode_value,
}
use nimbus_store.Metadata.RocksdbStore.Operations
use nimbus_store.Metadata.RocksdbStore.Operations.{begin_transaction}
use nimbus_store.Metadata.Service.{
  set_attr, merge_attr, Service, first_owner, locate_partition, on_partition, lookup_parts,
  lookup_path, create_entry, create, mkdir, get_attr, attr_of, update_size,
}
use nimbus_store.Metadata.Created.{lookup_path-create}
use nimbus_store.Metadata.Taken.{create-exist}
use nimbus_store.Metadata.Sizes.{attr_of-update_size, attr_of-set_attr}

-- What the tests compute with.
program : Unit {0}
unfolding create mkdir directory_mode lookup_path lookup_parts create_entry split_parent_child
    cut_last parse_path parse_parts locate_partition first_owner on_partition create_inode
    create_dentry lookup_dentry is_directory cmp set_attr merge_attr lookup update_size write_memory
    apply_batch apply_op read_of find insert le_bytes read_parts or_bits char_part word_part
    int_part decode_dentry_value decode_inode_value encode_dentry_key encode_dentry_value
    encode_inode_key encode_inode_value type_code type_of_code begin_transaction
    Operations.create_dentry Operations.create_inode Operations.commit Operations.lookup_dentry
    Operations.lookup_inode
program = tt

abbrev partition : ℕ → ℕ → MetaPartition in_memory
partition from to = record {
  config = record { start_inode = from; end_inode = to; data_dir = codes "/data" };
  store = some empty_db;
}

-- two partitions, of the inodes 1 to 2 and 3 to 99
abbrev empty_service : Service in_memory
empty_service = record { partitions = partition 1 3 ∷ partition 3 100 ∷ []; next_inode = 2 }

abbrev plain : FileMode
plain = record { mode = 420 }

abbrev with_directory : Service in_memory
unfolding program
with_directory = (mkdir in_memory 7 empty_service (codes "/d") plain 1 1).1

d_IsName : IsName (codes "d")
d_IsName =
    (λ e. absurd (omega (arith, ap (length {A = ℕ}) e)), (λ e. absurd (omega (arith, e)), tt))

f_IsName : IsName (codes "f")
f_IsName =
    (λ e. absurd (omega (arith, ap (length {A = ℕ}) e)), (λ e. absurd (omega (arith, e)), tt))

abbrev one_file : Service in_memory
unfolding program
one_file = (create in_memory 8 with_directory (absolute (codes "d" ∷ codes "f" ∷ [])) plain 5 6).1

created_run :
    is_ok (create in_memory 8 with_directory (absolute (codes "d" ∷ codes "f" ∷ [])) plain 5 6).0
    ≡ true
unfolding program
created_run = refl

lookup_path-create_example :
    (lookup_path in_memory one_file (codes "/d/f") ≡ done 3)
    × (get_attr in_memory one_file (codes "/d/f") ≡ done (fresh_attr 8 3 plain 5 6))
unfolding program
lookup_path-create_example =
    lookup_path-create in_memory chars_of in_memory-IsMetadataStore 8 with_directory plain 5 6
      (omega arith) (omega arith, omega arith, omega arith) (codes "d" ∷ []) (codes "f")
      (d_IsName, tt) f_IsName created_run

abbrev with_inode : Service in_memory
unfolding program
with_inode = record {
  partitions = (create_inode in_memory 7 (partition 1 3) 2 plain 5 6).1 ∷ [];
  next_inode = 3;
}

attr_of-update_size_example :
    attr_of in_memory (update_size in_memory 9 with_inode 2 4096).1.partitions 2
    ≡ done (fresh_attr 9 2 plain 5 6)
unfolding program
attr_of-update_size_example =
    attr_of-update_size in_memory chars_of in_memory-IsMetadataStore 9 with_inode 2 (omega arith)
      4096 (fresh_attr 7 2 plain 5 6) refl refl (omega arith, omega arith, omega arith) refl

found_run : lookup_path in_memory one_file (codes "/d/f") ≡ done 3
found_run = lookup_path-create_example.0

-- the size, of "/d/f"
abbrev sized : InodeAttr
sized = record (fresh_attr 8 3 plain 5 6) { size = 4096 }

attr_of-set_attr_example :
    attr_of in_memory (set_attr in_memory 9 one_file (codes "/d/f") sized 8).1.partitions 3
    ≡ done (fresh_attr 9 3 plain 5 6)
unfolding program
attr_of-set_attr_example =
    attr_of-set_attr in_memory chars_of in_memory-IsMetadataStore 9 one_file 3 (omega arith)
      (codes "/d/f") sized (fresh_attr 8 3 plain 5 6) 8 found_run refl refl
      (omega arith, omega arith, omega arith) (omega arith, omega arith, omega arith) refl

create-exist_example :
    create in_memory 9 one_file (absolute (codes "d" ∷ codes "f" ∷ [])) plain 1 1
    ≡ (exist (codes "File already exists"), one_file)
create-exist_example =
    create-exist in_memory 9 one_file plain 1 1 3 (codes "d" ∷ []) (codes "f") (d_IsName, tt)
      f_IsName found_run
